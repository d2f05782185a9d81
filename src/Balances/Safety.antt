-- ===== src/Balances/Safety.antt =====
-- What holds of every balance operation, whether it returns or raises.
use prop_x_exchange.Prelude.{
  ℕ, zero, suc, ◌≡◌, refl, ◌∙◌, leb, Bool, true, false, Option, none, some, List, [], ◌∷◌, arith,
  if◌then◌else◌,
}
use prop_x_exchange.Prelude.Int.{pos, leb_ℤ, ◌≤ℤ◌, int_laws}
use prop_x_exchange.Errors.{Error, write_conflict}
use prop_x_exchange.Exec.{Result, ok, err}
use prop_x_exchange.Exchange.{Decimal, Balance, World, Action}
use prop_x_exchange.Balances.{
  UpdateType, credit, debit, UpdateOptions, Direction, available_to_locked, locked_to_available,
  changed_row, moved_row, update_balance, transfer_between_available_and_locked, wallet_for,
  with_retries, transaction,
}
use prop_x_exchange.Balances.Table.{
  find_balance, put_balance, IsSolvent, put-IsSolvent, find-IsSolvent,
}
use prop_x_exchange.Balances.Outcomes.{
  transfer_run, transfer_tests, apply_update_parts, update_balance_parts,
}

-- A refused update writes nothing.
pub update_balance_refused :
    (u : ℕ) (a : Option ℕ) (x : Decimal) (ty : UpdateType) (o : UpdateOptions) (w w' : World)
    {e : Error}
    → update_balance u a x ty o w ≡ (err e, w')
    → w' ≡ w
unfolding update_balance
update_balance_refused u a x credit o w w' h = ground arith
update_balance_refused u a x debit o w w' h = ground arith

pub transfer_refused :
    (u : ℕ) (a : Option ℕ) (x : Decimal) (d : Direction) (w w' : World) {e : Error}
    → transfer_between_available_and_locked u a x d w ≡ (err e, w')
    → w' ≡ w
unfolding transfer_between_available_and_locked
transfer_refused u a x d w w' h = ground arith

-- `prisma.$transaction` keeps everything or nothing of the database.
pub transaction_refused :
    {A : Type 0} (m : Action A) (w w' : World) {e : Error}
    → transaction m w ≡ (err e, w')
    → w'.db ≡ w.db
unfolding transaction
transaction_refused m w w' h = ground arith

-- The conflicts that the database reports before the first attempt that it lets through.
abbrev pub conflicts_before : List Bool → ℕ
conflicts_before [] = 0
conflicts_before (false ∷ later) = 0
conflicts_before (true ∷ later) = suc (conflicts_before later)

-- With at most as many conflicts as retries the transaction runs exactly once, and with more it
-- does not run at all.
pub with_retries_once :
    {A : Type 0} (retries : ℕ) (conflicts : List Bool) (m : Action A) (w : World)
    → with_retries retries conflicts m w ≡ (
        if leb (conflicts_before conflicts) retries
        then transaction m w
        else (err write_conflict, w))
unfolding with_retries
with_retries_once retries [] m w = ground arith
with_retries_once retries (false ∷ later) m w = ground arith
with_retries_once zero (true ∷ later) m w = ground arith
with_retries_once (suc n) (true ∷ later) m w = with_retries_once n later m w ∙ ground arith

abbrev RowIsSolvent : Balance → Type 0
RowIsSolvent r = (pos 0 ≤ℤ r.available) × (pos 0 ≤ℤ r.locked)

changed_row-IsSolvent :
    (ty : UpdateType) (x : Decimal) (o : UpdateOptions) (r n : Balance)
    → leb_ℤ x (pos 0) ≡ false
    → RowIsSolvent r
    → changed_row ty x o r ≡ ok n
    → RowIsSolvent n
unfolding changed_row
changed_row-IsSolvent credit x o r n p s h = grind int_laws
changed_row-IsSolvent debit x o r n p s h = grind int_laws

moved_row-IsSolvent :
    (d : Direction) (x : Decimal) (r n : Balance)
    → leb_ℤ x (pos 0) ≡ false
    → RowIsSolvent r
    → moved_row d x r ≡ ok n
    → RowIsSolvent n
unfolding moved_row
moved_row-IsSolvent available_to_locked x r n p s h = grind int_laws
moved_row-IsSolvent locked_to_available x r n p s h = grind int_laws

wallet_for-IsSolvent :
    (u : ℕ) (a : Option ℕ) (ty : UpdateType) (row : Balance) (w w' : World) (found : Option Balance)
    → find_balance u a w.balances ≡ found
    → IsSolvent w.balances
    → wallet_for u a ty found w ≡ (ok row, w')
    → RowIsSolvent row × IsSolvent w'.balances
unfolding wallet_for
wallet_for-IsSolvent u a credit row w w' none e s h = ground arith
wallet_for-IsSolvent u a debit row w w' none e s h = cc
wallet_for-IsSolvent u a ty row w w' (some r) e s h =
    ground (arith, find-IsSolvent u a r w.balances s e)

-- From a table with no negative amount, every update leads to such a table, whether it returns
-- or is refused.
pub update_balance-IsSolvent :
    (u : ℕ) (a : Option ℕ) (x : Decimal) (ty : UpdateType) (o : UpdateOptions) (w : World)
    → IsSolvent w.balances
    → IsSolvent (update_balance u a x ty o w).1.balances
update_balance-IsSolvent u a x ty o w s = go (update_balance u a x ty o w) refl
  where
    go : (r : Result Balance × World) → update_balance u a x ty o w ≡ r → IsSolvent r.1.balances
    go (err e, w') h = rw (update_balance_refused u a x ty o w w' h) s
    go (ok n, w') h =
        let (row, w1, p, e, k) = update_balance_parts u a x ty o w w' h in
        let (changed, rows) = apply_update_parts u a x ty o row w1 w' k in
        let (sr, s1) = wallet_for-IsSolvent u a ty row w w1 _ refl s e in
        let sn = changed_row-IsSolvent ty x o row n p sr changed in
        rw rows (put-IsSolvent n w1.balances sn.0 sn.1 s1)

pub transfer-IsSolvent :
    (u : ℕ) (a : Option ℕ) (x : Decimal) (d : Direction) (w : World)
    → IsSolvent w.balances
    → IsSolvent (transfer_between_available_and_locked u a x d w).1.balances
transfer-IsSolvent u a x d w s = go (transfer_between_available_and_locked u a x d w) refl
  where
    go :
        (r : Result Balance × World)
        → transfer_between_available_and_locked u a x d w ≡ r
        → IsSolvent r.1.balances
    go (err e, w') h = rw (transfer_refused u a x d w w' h) s
    go (ok n, w') h =
        let (r, p, found, e) = transfer_tests u a x d w w' h in
        let run = transfer_run u a x d w r n p found e in
        let b : w'.balances ≡ put_balance n w.balances = cc in
        let sn = moved_row-IsSolvent d x r n p (find-IsSolvent u a r w.balances s found) e in
        rw b (put-IsSolvent n w.balances sn.0 sn.1 s)

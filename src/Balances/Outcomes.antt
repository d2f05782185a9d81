-- ===== src/Balances/Outcomes.antt =====
-- The operations of balances.service.ts that return: what each has done to the wallets.
use prop_x_exchange.Prelude.{
  ℕ, ◌≡◌, refl, sym, inl, inr, Bool, false, Option, none, some, Option-cases, ◌∷◌, arith,
  if◌then◌else◌,
}
use mathlib.Core.Path.{subst}
use prop_x_exchange.Prelude.Int.{ℤ, pos, leb_ℤ, ◌+ℤ◌, ◌-ℤ◌, int_laws}
use prop_x_exchange.Exec.{◌>>=◌, ok, >>=-eq-ok, raise_if-eq-ok, Result-cases}
use prop_x_exchange.Exchange.{Decimal, Balance, World}
use prop_x_exchange.Balances.{
  UpdateType, credit, debit, UpdateOptions, Direction, available_to_locked, locked_to_available,
  changed_row, apply_update, moved_row, update_balance, transfer_between_available_and_locked,
  wallet_for,
}
use prop_x_exchange.Balances.Table.{find_balance, put_balance}
use prop_x_exchange.Balances.Effects.{
  Effect, Effect-from, empty_row, created-Effect, find-created, no-Effect, saved-Effect,
}

-- The signed change that `updateBalance` makes to a column that it uses.
abbrev pub change : UpdateType → Bool → Decimal → ℤ
change credit used x = if used then x else pos 0
change debit used x = if used then pos 0 -ℤ x else pos 0

pub changed_row-columns :
    (ty : UpdateType) (x : Decimal) (o : UpdateOptions) (r r' : Balance)
    → changed_row ty x o r ≡ ok r'
    → (r'.user_id ≡ r.user_id)
      × (r'.asset_id ≡ r.asset_id)
      × (r'.available ≡ r.available +ℤ change ty o.use_available x)
      × (r'.locked ≡ r.locked +ℤ change ty o.use_locked x)
unfolding changed_row
changed_row-columns credit x o r r' h = grind int_laws
changed_row-columns debit x o r r' h = grind int_laws

pub wallet_for-Effect :
    (u : ℕ) (a : Option ℕ) (ty : UpdateType) (row : Balance) (w w' : World) (found : Option Balance)
    → find_balance u a w.balances ≡ found
    → wallet_for u a ty found w ≡ (ok row, w')
    → (find_balance u a w'.balances ≡ some row) × Effect u a (pos 0) (pos 0) w.balances w'.balances
unfolding wallet_for
wallet_for-Effect u a credit row w w' none missing h =
    let ew : w'.balances ≡ empty_row u a ∷ w.balances = cc in
    let er : row ≡ empty_row u a = cc in
    rw ew (rw er (find-created u a w.balances missing, created-Effect u a w.balances missing))
wallet_for-Effect u a debit row w w' none missing h = cc
wallet_for-Effect u a ty row w w' (some r) found h =
    let ew : w'.balances ≡ w.balances = cc in
    let er : row ≡ r = cc in rw ew (rw er (found, no-Effect u a w.balances))

module _ (u : ℕ) (a : Option ℕ) (x : Decimal) (ty : UpdateType) (o : UpdateOptions) where
  -- The writes that return have changed the row and saved it.
  pub apply_update_parts :
      (row : Balance) (w w' : World) {n : Balance}
      → apply_update u x ty o row w ≡ (ok n, w')
      → (changed_row ty x o row ≡ ok n) × (w'.balances ≡ put_balance n w.balances)
  apply_update_parts row w w' h = elim (Result-cases (changed_row ty x o row)) [
    | inl (n', e) ↦ (unfold apply_update in ground arith, unfold apply_update in ground arith)
    | inr (f, e) ↦ unfold apply_update in absurd (ground arith)
  ]

  -- An update that returns has passed its guard, found or made the row, and written it.
  pub update_balance_parts :
      (w w' : World) {n : Balance}
      → update_balance u a x ty o w ≡ (ok n, w')
      → (row : Balance) × (w1 : World) × (leb_ℤ x (pos 0) ≡ false)
        × (wallet_for u a ty (find_balance u a w.balances) w ≡ (ok row, w1))
        × (apply_update u x ty o row w1 ≡ (ok n, w'))
  unfolding update_balance
  update_balance_parts w w' h =
      let found = wallet_for u a ty (find_balance u a w.balances) in
      let (positive, h1) = raise_if-eq-ok _ _ (found >>= apply_update u x ty o) w h in
      let (row, w1, e, h2) = >>=-eq-ok found (apply_update u x ty o) w h1 in
      (row, w1, positive, e, h2)

  -- An update that returns changes exactly one wallet, by the signed amount in each column that
  -- its options name.
  pub update_balance-Effect :
      (w w' : World) {n : Balance}
      → update_balance u a x ty o w ≡ (ok n, w')
      → Effect u a (change ty o.use_available x) (change ty o.use_locked x) w.balances w'.balances
  update_balance-Effect w w' {n} h =
      let (row, w1, _, e, k) = update_balance_parts w w' h in
      let (found, before) = wallet_for-Effect u a ty row w w1 _ refl e in
      let (changed, rows) = apply_update_parts row w1 w' k in
      let (eu, ea, p, q) = changed_row-columns ty x o row n changed in
      let saved = saved-Effect u a _ _ w1.balances row n found eu ea p q in
      Effect-from w.balances before (
        subst
          (λ z. Effect u a (change ty o.use_available x) (change ty o.use_locked x) w1.balances z)
          (sym rows) saved)

-- The signed change of the available column, and of the locked column against it.
abbrev pub moved : Direction → Decimal → ℤ
moved available_to_locked x = x
moved locked_to_available x = pos 0 -ℤ x

pub moved_row-columns :
    (d : Direction) (x : Decimal) (r n : Balance)
    → moved_row d x r ≡ ok n
    → (n.user_id ≡ r.user_id)
      × (n.asset_id ≡ r.asset_id)
      × (n.available ≡ r.available +ℤ (pos 0 -ℤ moved d x))
      × (n.locked ≡ r.locked +ℤ moved d x)
unfolding moved_row
moved_row-columns available_to_locked x r n h = grind int_laws
moved_row-columns locked_to_available x r n h = grind int_laws

abbrev pub with_row : Balance → World → World
with_row n w = record w { db = record w.db { balances = put_balance n w.balances } }

-- A transfer whose tests pass writes the row.
pub transfer_run :
    (u : ℕ) (a : Option ℕ) (x : Decimal) (d : Direction) (w : World) (r n : Balance)
    → leb_ℤ x (pos 0) ≡ false
    → find_balance u a w.balances ≡ some r
    → moved_row d x r ≡ ok n
    → transfer_between_available_and_locked u a x d w ≡ (ok n, with_row n w)
unfolding transfer_between_available_and_locked
transfer_run u a x d w r n positive found e = rw (positive, found, e)

-- A transfer that returns has passed its tests.
pub transfer_tests :
    (u : ℕ) (a : Option ℕ) (x : Decimal) (d : Direction) (w w' : World) {n : Balance}
    → transfer_between_available_and_locked u a x d w ≡ (ok n, w')
    → (r : Balance) × (leb_ℤ x (pos 0) ≡ false)
      × (find_balance u a w.balances ≡ some r)
      × (moved_row d x r ≡ ok n)
unfolding transfer_between_available_and_locked
transfer_tests u a x d w w' h = elim (Option-cases (find_balance u a w.balances)) [
  | inl e ↦ absurd (ground arith)
  | inr (r, e) ↦ elim (Result-cases (moved_row d x r)) [
    | inl (n', k) ↦ (r, ground arith, e, ground arith)
    | inr (f, k) ↦ absurd (ground arith)
  ]
]

-- A transfer that returns moves the amount between the two columns of one wallet.
pub transfer-Effect :
    (u : ℕ) (a : Option ℕ) (x : Decimal) (d : Direction) (w w' : World) {n : Balance}
    → transfer_between_available_and_locked u a x d w ≡ (ok n, w')
    → Effect u a (pos 0 -ℤ moved d x) (moved d x) w.balances w'.balances
transfer-Effect u a x d w w' {n} h =
    let (r, positive, found, e) = transfer_tests u a x d w w' h in
    let run = transfer_run u a x d w r n positive found e in
    let b : w'.balances ≡ put_balance n w.balances = cc in
    let (eu, ea, p, q) = moved_row-columns d x r n e in
    rw b (saved-Effect u a _ _ w.balances r n found eu ea p q)

-- ===== src/Payments/Attempts.antt =====
-- gas-spike.service.ts: the attempts that are recorded for a withdrawal.
use prop_x_exchange.Prelude.{
  ℕ, suc, ◌≤◌, ◌<◌, ◌≡◌, refl, sym, ap, ◌∙◌, inl, inr, Bool-cases, true, false, Option, none, some,
  List, ◌∷◌, arith, ◌==◌,
}
use mathlib.Core.Path.{subst}
use prop_x_exchange.Prelude.Rows.{count_where}
use prop_x_exchange.Errors.{Error, record_not_found}
use prop_x_exchange.Exec.{pure, modify, Result, ok, err, or_raise, ◌>>=◌, ◌>>◌}
use prop_x_exchange.Exchange.{Transaction, GasSpeedUpAttempt, World, Action}
use prop_x_exchange.Tables.Users.{AuditAction}
use prop_x_exchange.Users.Table.{create_audit}
use prop_x_exchange.Balances.{transaction}
use prop_x_exchange.Payments.Table.{find_transaction, put_transaction, update_transaction}
use prop_x_exchange.Payments.Tally.{find-put, find-id}
use prop_x_exchange.Payments.Gas.{max_speed_up_attempts, catching}

abbrev pub attempts_on : ℕ → List GasSpeedUpAttempt → ℕ
attempts_on id attempts = count_where (λ a. a.transaction_id == id) attempts

-- The transaction counts the attempts that are recorded for it, and they are at most five.
abbrev pub IsTold : List GasSpeedUpAttempt → ℕ → Transaction → Type 0
IsTold attempts id t =
    (attempts_on id attempts ≡ t.speed_up_attempts) × (t.speed_up_attempts ≤ max_speed_up_attempts)

abbrev pub Counts : List Transaction → List GasSpeedUpAttempt → Type 0
Counts rows attempts =
    (id : ℕ) (t : Transaction) → find_transaction id rows ≡ some t → IsTold attempts id t

pub record IsCounted (w : World) : Type 0 where
  pub counts : Counts w.transactions w.gas_speed_up_attempts

module _ (n old : Transaction) (rows : List Transaction) (attempts : List GasSpeedUpAttempt)
    (found : find_transaction n.id rows ≡ some old) (h : Counts rows attempts) where
  put-Counts :
      n.speed_up_attempts ≡ old.speed_up_attempts → Counts (put_transaction n rows) attempts
  put-Counts same id t e =
      let there = find-put n old rows id found in
      let before = h n.id old found in
      elim (Bool-cases (n.id == id)) [
        | inl here ↦
            let eq : id ≡ n.id = ground arith in
            let t_eq : n ≡ t = ground (arith, there) in
            subst (λ i. IsTold attempts i t) (sym eq)
              (subst (λ r. IsTold attempts n.id r) t_eq (before.0 ∙ sym same, rw same before.1))
        | inr other ↦ h id t (sym (there ∙ rw other refl) ∙ e)
      ]

  pub put-Counts_more :
      (a : GasSpeedUpAttempt)
      → a.transaction_id ≡ n.id
      → n.speed_up_attempts ≡ suc old.speed_up_attempts
      → old.speed_up_attempts < max_speed_up_attempts
      → Counts (put_transaction n rows) (a ∷ attempts)
  unfolding count_where
  put-Counts_more a about more few id t e =
      let there = find-put n old rows id found in
      let before = h n.id old found in
      elim (Bool-cases (n.id == id)) [
        | inl here ↦
            let eq : n.id ≡ id = ground arith in
            let t_eq : n ≡ t = ground (arith, there) in
            let one : (a.transaction_id == n.id) ≡ true = ground arith in
            subst (λ i. IsTold (a ∷ attempts) i t) eq
              (subst (λ r. IsTold (a ∷ attempts) n.id r) t_eq
                (rw one (ap suc before.0 ∙ sym more), rw more few))
        | inr other ↦
            let apart : (a.transaction_id == id) ≡ false = ground arith in
            let kept = h id t (sym (there ∙ rw other refl) ∙ e) in (rw apart kept.0, kept.1)
      ]

-- A method that raises or returns leaves the counts right.
abbrev pub KeepsCounts : World → World → Type 0
KeepsCounts w w' = IsCounted w → IsCounted w'

abbrev pub with_row : Transaction → World → World
with_row n w = record w { db = record w.db { transactions = put_transaction n w.transactions } }

abbrev pub with_attempt : GasSpeedUpAttempt → World → World
with_attempt a w = record w {
  db = record w.db { gas_speed_up_attempts = a ∷ w.gas_speed_up_attempts };
}

ok_parts :
    {A : Type 0}
    → (a b : A) (s t : World) → ◌≡◌ {A = Result A × World} (ok a, s) (ok b, t)
    → (a ≡ b) × (s ≡ t)
ok_parts a b s t h = (cc, cc)

module _ (id : ℕ) (change : Transaction → Transaction) (w : World) where
  written_row : Transaction → Action Transaction
  written_row row =
      modify (λ w. record w {
        db = record w.db { transactions = put_transaction (change row) w.transactions };
      })
      >> pure (change row)

  update_run :
      (o : Option Transaction)
      → find_transaction id w.transactions ≡ o
      → update_transaction id change w ≡ (or_raise o record_not_found >>= written_row) w
  unfolding update_transaction written_row
  update_run o e = ap (λ p. (or_raise p record_not_found >>= written_row) w) e

  pub update_at :
      (w' : World) (n : Transaction)
      → update_transaction id change w ≡ (ok n, w')
      → (old : Transaction) × (find_transaction id w.transactions ≡ some old)
        × (n ≡ change old)
        × (w' ≡ with_row (change old) w)
  unfolding written_row
  update_at w' n h = go (find_transaction id w.transactions) refl
    where
      go :
          (o : Option Transaction)
          → find_transaction id w.transactions ≡ o
          → (old : Transaction) × (find_transaction id w.transactions ≡ some old)
            × (n ≡ change old)
            × (w' ≡ with_row (change old) w)
      go none e = let k = sym (update_run none e) ∙ h in cc
      go (some old) e =
          let (same, moved) =
            ok_parts (change old) n (with_row (change old) w) w'
              (sym (update_run (some old) e) ∙ h) in
          (old, e, sym same, sym moved)

-- An update that keeps the id and the number of attempts.
pub record IsAside (change : Transaction → Transaction) : Type 0 where
  pub id_kept : (t : Transaction) → (change t).id ≡ t.id
  pub attempts_kept : (t : Transaction) → (change t).speed_up_attempts ≡ t.speed_up_attempts

module _ (id : ℕ) (change : Transaction → Transaction) (aside : IsAside change) where
  pub update-IsCounted : (w : World) → KeepsCounts w (update_transaction id change w).1
  unfolding update_transaction
  update-IsCounted w h = go (find_transaction id w.transactions) refl
    where
      go :
          (o : Option Transaction)
          → find_transaction id w.transactions ≡ o
          → IsCounted (update_transaction id change w).1
      go none e = rw e h
      go (some old) e =
          let key : (change old).id ≡ id = aside.id_kept old ∙ find-id id w.transactions old e in
          rw e (record {
            counts =
                put-Counts (change old) old w.transactions w.gas_speed_up_attempts
                  (ap (λ i. find_transaction i w.transactions) key ∙ e) h.counts
                  (aside.attempts_kept old);
          })

-- The results of a transaction, of a `try` and of a sequence, by that of their first part.
module _ {A : Type 0} where
  abbrev restored : World → Result A × World → Result A × World
  restored w r = elim r.0 [ ok a ↦ (ok a, r.1) | err e ↦ (err e, record r.1 { db = w.db }) ]

  abbrev caught : Error → Result A × World → Result A × World
  caught e r = elim r.0 [ ok a ↦ (ok a, r.1) | err x ↦ (err e, r.1) ]

  abbrev followed : {B : Type 0} → (A → Action B) → Result A × World → Result B × World
  followed f r = elim r.0 [ ok a ↦ f a r.1 | err x ↦ (err x, r.1) ]

pub transaction-IsCounted :
    {A : Type 0} (m : Action A) (w : World)
    → IsCounted w
    → ((a : A) (w' : World) → m w ≡ (ok a, w') → IsCounted w')
    → IsCounted (transaction m w).1
unfolding transaction
transaction-IsCounted {A = A} m w h k = go (m w) refl
  where
    go : (r : Result A × World) → m w ≡ r → IsCounted (restored w r).1
    go (ok a, w') e = k a w' e
    go (err x, w') e = record { counts = h.counts }

pub catching-IsCounted :
    {A : Type 0} (e : Error) (m : Action A) (w : World)
    → IsCounted (m w).1
    → IsCounted (catching e m w).1
unfolding catching
catching-IsCounted {A = A} e m w h = go (m w) h
  where
    go : (r : Result A × World) → IsCounted r.1 → IsCounted (caught e r).1
    go (ok a, w') h = h
    go (err x, w') h = h

pub then-IsCounted :
    {A B : Type 0} (m : Action A) (f : A → Action B) (w : World)
    → IsCounted (m w).1
    → ((a : A) (w' : World) → IsCounted w' → IsCounted (f a w').1)
    → IsCounted ((m >>= f) w).1
then-IsCounted {A = A} m f w h k = go (m w) h
  where
    go : (r : Result A × World) → IsCounted r.1 → IsCounted (followed f r).1
    go (ok a, w') h = k a w' h
    go (err x, w') h = h

or_raise-IsCounted :
    {A B : Type 0} (o : Option A) (e : Error) (f : A → Action B) (w : World)
    → IsCounted w
    → ((a : A) → o ≡ some a → IsCounted (f a w).1)
    → IsCounted ((or_raise o e >>= f) w).1
or_raise-IsCounted none e f w h k = h
or_raise-IsCounted (some a) e f w h k = k a refl

same-IsCounted :
    (w w' : World)
    → w'.transactions ≡ w.transactions
    → w'.gas_speed_up_attempts ≡ w.gas_speed_up_attempts
    → KeepsCounts w w'
same-IsCounted w w' e k h = record {
  counts =
      subst (λ rows. Counts rows w'.gas_speed_up_attempts) (sym e)
        (subst (λ attempts. Counts w.transactions attempts) (sym k) h.counts);
}

pub audit-IsCounted :
    (action : AuditAction) (id performer : ℕ) (w : World)
    → KeepsCounts w (create_audit action id performer w).1
unfolding create_audit
audit-IsCounted action id performer w = same-IsCounted w _ (ground arith) (ground arith)

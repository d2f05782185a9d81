-- ===== src/Payments/SpeedUps.antt =====
-- speedUpTransaction of gas-spike.service.ts: what it does to the attempts that are recorded.
use prop_x_exchange.Prelude.{
  ℕ, ◌<◌, ◌≡◌, ⊤, refl, sym, ap, ◌∙◌, inl, inr, Bool-cases, Option, none, some, arith,
}
use mathlib.Core.Path.{subst}
use prop_x_exchange.Prelude.Int.{leb_ℤ}
use prop_x_exchange.Errors.{speed_up_failed, wallet_missing, not_on_chain, Error}
use prop_x_exchange.Exec.{pure, ok, or_raise, ◌>>=◌, ◌>>◌, >>=-eq-ok}
use prop_x_exchange.Exchange.{Decimal, Transaction, GasSpeedUpAttempt, World, Action}
use prop_x_exchange.Tables.Users.{User, speed_up_initiated}
use prop_x_exchange.Users.Table.{find_user, create_audit}
use prop_x_exchange.Balances.{transaction}
use prop_x_exchange.Payments.Table.{find_transaction, update_transaction}
use prop_x_exchange.Payments.Tally.{find-id}
use prop_x_exchange.Payments.Gas.{
  old_price_of, clamped, record_speed_up, attempt_of, Gas, max_speed_up_attempts, catching,
  speed_up_error, insert_attempt, sped_up, write_speed_up, send_speed_up, speed_up_for, speed_up_at,
  speed_up_priced, speed_up_checked, speed_up_found,
}
use prop_x_exchange.Payments.Attempts.{
  IsCounted, KeepsCounts, put-Counts_more, with_row, with_attempt, update_at, transaction-IsCounted,
  catching-IsCounted, then-IsCounted, audit-IsCounted,
}

module _ (t : Transaction) (a : GasSpeedUpAttempt) (about : a.transaction_id ≡ t.id)
    (few : t.speed_up_attempts < max_speed_up_attempts) where
  write_speed_up-IsCounted :
      (w w' : World) (r : ⊤)
      → find_transaction t.id w.transactions ≡ some t
      → IsCounted w
      → write_speed_up t a w ≡ (ok r, w')
      → IsCounted w'
  unfolding write_speed_up insert_attempt
  write_speed_up-IsCounted w w' r found h e =
      let change = sped_up a.new_tx_hash a.new_gas_price in
      let rest : Transaction → Action ⊤ =
        λ n. insert_attempt a >> create_audit speed_up_initiated t.id t.user_id in
      let (n, w1, e1, k1) = >>=-eq-ok (update_transaction t.id change) rest w e in
      let (old, there, n_eq, w1_eq) = update_at t.id change w w1 n e1 in
      let same : t ≡ old = cc in
      let counted : IsCounted (with_attempt a (with_row (change t) w)) = record {
        counts =
            put-Counts_more (change t) t w.transactions w.gas_speed_up_attempts found h.counts a
              about refl few;
      } in
      let w1_is : with_row (change t) w ≡ w1 = ap (λ o. with_row (change o) w) same ∙ sym w1_eq in
      subst IsCounted (ap (λ p. p.1) k1) (
        audit-IsCounted speed_up_initiated t.id t.user_id (with_attempt a w1)
          (subst (λ v. IsCounted (with_attempt a v)) w1_is counted))

  record_speed_up-IsCounted :
      (w : World)
      → find_transaction t.id w.transactions ≡ some t
      → KeepsCounts w (record_speed_up t a w).1
  unfolding record_speed_up
  record_speed_up-IsCounted w found h =
      then-IsCounted {B = ℕ} (transaction (write_speed_up t a)) (λ _. pure a.new_tx_hash) w
        (transaction-IsCounted (write_speed_up t a) w h
          λ r w' e. write_speed_up-IsCounted w w' r found h e)
        λ r w' counted. counted

module _ (gas : Gas) (t : Transaction) (few : t.speed_up_attempts < max_speed_up_attempts)
    (w : World) (found : find_transaction t.id w.transactions ≡ some t) (h : IsCounted w) where
  send_speed_up-IsCounted :
      (hash address : ℕ) (old new : Decimal)
      → IsCounted (send_speed_up gas t hash address old new w).1
  unfolding send_speed_up
  send_speed_up-IsCounted hash address old new =
      go (gas.speed_up w hash address t.amount new) (gas.estimate_cost w t.amount new)
    where
      go :
          (o : Option ℕ) (p : Option Decimal)
          → IsCounted
              ((or_raise o speed_up_failed >>= λ new_hash. or_raise p speed_up_failed >>= λ cost.
                  record_speed_up t (attempt_of t hash old new new_hash cost))
                w).1
      go none p = h
      go (some new_hash) none = h
      go (some new_hash) (some cost) =
          record_speed_up-IsCounted t (attempt_of t hash old new new_hash cost) refl few w found h

  speed_up_for-IsCounted :
      (old new : Decimal) (u : Option User) → IsCounted (speed_up_for gas t old new u w).1
  unfolding speed_up_for
  speed_up_for-IsCounted old new none = h
  speed_up_for-IsCounted old new (some u) = go u.wallet_address t.tx_hash
    where
      go :
          (o p : Option ℕ)
          → IsCounted
              ((or_raise o wallet_missing >>= λ address. or_raise p not_on_chain >>= λ hash.
                  catching speed_up_failed (send_speed_up gas t hash address old new))
                w).1
      go none p = h
      go (some address) none = h
      go (some address) (some hash) =
          catching-IsCounted speed_up_failed (send_speed_up gas t hash address old new) w
            (send_speed_up-IsCounted hash address old new)

  speed_up_at-IsCounted : (old new : Decimal) → IsCounted (speed_up_at gas t old new w).1
  unfolding speed_up_at
  speed_up_at-IsCounted old new = elim (Bool-cases (leb_ℤ new old)) [
    | inl e ↦ rw e h
    | inr e ↦ rw e (speed_up_for-IsCounted old new (find_user t.user_id w.users))
  ]

  speed_up_priced-IsCounted :
      (multiplier : Decimal) (o : Option Decimal)
      → IsCounted (speed_up_priced gas t multiplier o w).1
  unfolding speed_up_priced
  speed_up_priced-IsCounted multiplier none = h
  speed_up_priced-IsCounted multiplier (some current) =
      let old = old_price_of t current in
      speed_up_at-IsCounted old (gas.raised old (clamped gas multiplier))

speed_up_error-few :
    (t : Transaction) → speed_up_error t ≡ none → t.speed_up_attempts < max_speed_up_attempts
unfolding speed_up_error
speed_up_error-few t h = ground arith

module _ (gas : Gas) where
  pub speed_up_found-IsCounted :
      (multiplier : Decimal) (id : ℕ) (o : Option Transaction) (w : World)
      → find_transaction id w.transactions ≡ o
      → KeepsCounts w (speed_up_found gas multiplier o w).1
  unfolding speed_up_found speed_up_checked
  speed_up_found-IsCounted multiplier id none w e h = h
  speed_up_found-IsCounted multiplier id (some t) w e h = go (speed_up_error t) refl
    where
      found : find_transaction t.id w.transactions ≡ some t
      found = ap (λ i. find_transaction i w.transactions) (find-id id w.transactions t e) ∙ e

      go :
          (x : Option Error)
          → speed_up_error t ≡ x
          → IsCounted (speed_up_checked gas t multiplier x w).1
      go (some x) k = h
      go none k =
          speed_up_priced-IsCounted gas t (speed_up_error-few t k) w found h multiplier
            (gas.current_price w)

-- ===== src/Payments/Gas.antt =====
-- modules/payment/services/gas-spike.service.ts: withdrawals that the chain does not confirm.
use prop_x_exchange.Prelude.{
  is_some, ℕ, suc, ◌+◌, ◌*◌, ⊤, Bool, not, ◌&&◌, ◌||◌, ltb, leb, Option, none, some, List, [], ◌∷◌,
  ◌==◌, if◌then◌else◌,
}
use prop_x_exchange.Prelude.Int.{◌-ℤ◌, leb_ℤ, min_ℤ, max_ℤ}
use prop_x_exchange.Prelude.Rows.{select}
use prop_x_exchange.Errors.{
  Error, transaction_not_found, not_a_withdrawal, not_on_chain, max_speed_ups_reached,
  gas_price_not_higher, speed_up_failed, user_not_found, wallet_missing,
}
use prop_x_exchange.Exec.{ok, err, pure, raise, or_raise, modify, ◌>>=◌, ◌>>◌}
use prop_x_exchange.Exchange.{Decimal, Transaction, GasSpeedUpAttempt, World, Action}
use prop_x_exchange.Tables.Users.{User, speed_up_initiated}
use prop_x_exchange.Users.Table.{find_user, create_audit}
use prop_x_exchange.Balances.{transaction}
use prop_x_exchange.Payments.Table.{find_transaction, update_transaction}
use prop_x_exchange.Payments.Jobs.{is_withdraw, is_pending}

-- The clients of the chain, each of which may fail, and the price times a multiplier, rounded.
pub record Gas : Type 0 where
  pub current_price : World → Option Decimal
  pub speed_up : World → ℕ → ℕ → Decimal → Decimal → Option ℕ
  pub estimate_cost : World → Decimal → Decimal → Option Decimal
  pub refund : World → ℕ → Option ℕ
  pub raised : Decimal → Decimal → Decimal
  -- `MIN_GAS_MULTIPLIER` and `MAX_GAS_MULTIPLIER`
  pub least_multiplier : Decimal
  pub greatest_multiplier : Decimal

abbrev pub hour : ℕ
hour = 60 * 60 * 1000

abbrev pub max_speed_up_attempts : ℕ
max_speed_up_attempts = 5

-- The query of `checkStuckTransactions`, and its test.
abbrev pub is_unmarked : Transaction → Bool
is_unmarked t =
    is_pending t.status && is_some t.tx_hash && is_withdraw t.type && not (is_some t.stuck_since)

abbrev pub is_stale : ℕ → Transaction → Bool
is_stale now t = (t.confirmations == 0) && ltb (t.created_at + hour) now

unfoldable pub mark_each : ℕ → List Transaction → Action ⊤
mark_each now [] = pure tt
mark_each now (t ∷ ts) =
    if is_stale now t
    then update_transaction t.id (λ row. record row { stuck_since = some now }) >> mark_each now ts
    else mark_each now ts

unfoldable pub check_stuck_transactions : Action ⊤
unfolding mark_each
check_stuck_transactions w = mark_each w.now (select is_unmarked w.transactions) w

-- What is raised in the `try` of a method becomes another error.
unfoldable pub catching : {A : Type 0} → Error → Action A → Action A
catching e m w = let (r, w') = m w in elim r [ ok a ↦ (ok a, w') | err x ↦ (err e, w') ]

-- The checks on the transaction of `speedUpTransaction`, in their order.
unfoldable pub speed_up_error : Transaction → Option Error
speed_up_error t =
    if not (is_withdraw t.type)
    then some not_a_withdrawal
    else if not (is_pending t.status) || not (is_some t.tx_hash)
    then some not_on_chain
    else if leb max_speed_up_attempts t.speed_up_attempts
    then some max_speed_ups_reached
    else none

abbrev pub or_price : Option Decimal → Decimal → Decimal
or_price none p = p
or_price (some q) p = q

abbrev pub old_price_of : Transaction → Decimal → Decimal
old_price_of t current = or_price t.last_gas_price (or_price t.gas_price current)

unfoldable pub insert_attempt : GasSpeedUpAttempt → Action ⊤
insert_attempt a =
    modify
      λ w. record w { db = record w.db { gas_speed_up_attempts = a ∷ w.gas_speed_up_attempts } }

abbrev pub sped_up : ℕ → Decimal → Transaction → Transaction
sped_up hash price row = record row {
  tx_hash = some hash;
  last_gas_price = some price;
  speed_up_attempts = suc row.speed_up_attempts;
}

unfoldable pub write_speed_up : Transaction → GasSpeedUpAttempt → Action ⊤
unfolding insert_attempt
write_speed_up t a =
    update_transaction t.id (sped_up a.new_tx_hash a.new_gas_price)
    >> (insert_attempt a >> create_audit speed_up_initiated t.id t.user_id)

abbrev pub attempt_of : Transaction → ℕ → Decimal → Decimal → ℕ → Decimal → GasSpeedUpAttempt
attempt_of t hash old new new_hash cost = record {
  transaction_id = t.id;
  previous_tx_hash = hash;
  new_tx_hash = new_hash;
  old_gas_price = old;
  new_gas_price = new;
  gas_fee_paid = cost -ℤ t.fee;
}

unfoldable pub record_speed_up : Transaction → GasSpeedUpAttempt → Action ℕ
unfolding write_speed_up
record_speed_up t a = transaction (write_speed_up t a) >> pure a.new_tx_hash

module _ (gas : Gas) where
  abbrev pub clamped : Decimal → Decimal
  clamped m = max_ℤ gas.least_multiplier (min_ℤ m gas.greatest_multiplier)

  unfoldable pub send_speed_up : Transaction → ℕ → ℕ → Decimal → Decimal → Action ℕ
  unfolding record_speed_up
  send_speed_up t hash address old new w =
      (or_raise (gas.speed_up w hash address t.amount new) speed_up_failed >>= λ new_hash.
      or_raise (gas.estimate_cost w t.amount new) speed_up_failed >>= λ cost.
      record_speed_up t (attempt_of t hash old new new_hash cost))
        w

  unfoldable pub speed_up_for : Transaction → Decimal → Decimal → Option User → Action ℕ
  unfolding catching send_speed_up
  speed_up_for t old new found = do
    u ← or_raise found user_not_found
    address ← or_raise u.wallet_address wallet_missing
    hash ← or_raise t.tx_hash not_on_chain
    catching speed_up_failed (send_speed_up t hash address old new)

  unfoldable pub speed_up_at : Transaction → Decimal → Decimal → Action ℕ
  unfolding speed_up_for
  speed_up_at t old new w =
      if leb_ℤ new old
      then (err gas_price_not_higher, w)
      else speed_up_for t old new (find_user t.user_id w.users) w

  -- A chain that gives no price raises, whatever the error.
  unfoldable pub speed_up_priced : Transaction → Decimal → Option Decimal → Action ℕ
  unfolding speed_up_at
  speed_up_priced t multiplier none = raise speed_up_failed
  speed_up_priced t multiplier (some current) =
      speed_up_at t (old_price_of t current)
        (gas.raised (old_price_of t current) (clamped multiplier))

  unfoldable pub speed_up_checked : Transaction → Decimal → Option Error → Action ℕ
  unfolding speed_up_priced
  speed_up_checked t multiplier (some e) w = (err e, w)
  speed_up_checked t multiplier none w = speed_up_priced t multiplier (gas.current_price w) w

  unfoldable pub speed_up_found : Decimal → Option Transaction → Action ℕ
  unfolding speed_up_checked
  speed_up_found multiplier none = raise transaction_not_found
  speed_up_found multiplier (some t) = speed_up_checked t multiplier (speed_up_error t)

  unfoldable pub speed_up_transaction : ℕ → Decimal → Action ℕ
  unfolding speed_up_found
  speed_up_transaction id multiplier w =
      speed_up_found multiplier (find_transaction id w.transactions) w

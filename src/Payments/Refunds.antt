-- ===== src/Payments/Refunds.antt =====
-- modules/payment/services/gas-spike.service.ts: refunds, and the requests of the service in turn.
use prop_x_exchange.Prelude.{
  is_some, ℕ, ◌+◌, ◌*◌, ⊤, not, ltb, Option, none, some, List, [], ◌∷◌, if◌then◌else◌,
}
use prop_x_exchange.Prelude.Int.{◌+ℤ◌, ◌-ℤ◌}
use prop_x_exchange.Errors.{
  Error, transaction_not_found, not_a_withdrawal, not_on_chain, already_refunded, not_stuck,
  not_stuck_long, refund_failed,
}
use prop_x_exchange.Exec.{err, pure, raise, or_raise, ◌>>=◌, ◌>>◌}
use prop_x_exchange.Exchange.{Decimal, Balance, Transaction, tx_cancelled, World, Action}
use prop_x_exchange.Tables.Users.{refund_processed}
use prop_x_exchange.Users.Table.{create_audit, system}
use prop_x_exchange.Balances.{transaction}
use prop_x_exchange.Payments.Table.{find_transaction, update_transaction}
use prop_x_exchange.Payments.Jobs.{is_withdraw, update_cash}
use prop_x_exchange.Payments.Gas.{
  Gas, hour, check_stuck_transactions, catching, speed_up_transaction,
}

-- The checks on the transaction of `processRefund`, in their order.
abbrev pub stuck_error : ℕ → Transaction → Option Error
stuck_error now t = elim t.stuck_since [
  | none ↦ some not_stuck
  | some since ↦
      if ltb now (since + 2 * hour)
      then some not_stuck_long
      else if is_some t.tx_hash
      then none
      else some not_on_chain
]

unfoldable pub refund_error : ℕ → Transaction → Option Error
refund_error now t =
    if not (is_withdraw t.type)
    then some not_a_withdrawal
    else if is_some t.refund_tx_hash
    then some already_refunded
    else stuck_error now t

abbrev pub refunded : ℕ → Transaction → Transaction
refunded hash row = record row { status = tx_cancelled; refund_tx_hash = some hash }

abbrev pub unlocked : Decimal → Balance → Balance
unlocked x row = record row { available = row.available +ℤ x; locked = row.locked -ℤ x }

unfoldable pub write_refund : Transaction → ℕ → Action ⊤
write_refund t refund_hash =
    update_transaction t.id (refunded refund_hash)
    >> (update_cash t.user_id (unlocked t.amount) >> create_audit refund_processed t.id system)

unfoldable pub record_refund : Transaction → ℕ → Action ℕ
unfolding write_refund
record_refund t refund_hash = transaction (write_refund t refund_hash) >> pure refund_hash

module _ (gas : Gas) where
  unfoldable pub send_refund : Transaction → ℕ → Action ℕ
  unfolding record_refund
  send_refund t hash w = (or_raise (gas.refund w hash) refund_failed >>= record_refund t) w

  unfoldable pub refund_for : Transaction → Option ℕ → Action ℕ
  unfolding catching send_refund
  refund_for t none = raise not_on_chain
  refund_for t (some hash) = catching refund_failed (send_refund t hash)

  unfoldable pub refund_checked : Transaction → Option Error → Action ℕ
  unfolding refund_for
  refund_checked t (some e) = raise e
  refund_checked t none = refund_for t t.tx_hash

  unfoldable pub refund_found : Option Transaction → Action ℕ
  unfolding refund_checked refund_error
  refund_found none w = (err transaction_not_found, w)
  refund_found (some t) w = refund_checked t (refund_error w.now t) w

  unfoldable pub process_refund : ℕ → Action ℕ
  unfolding refund_found
  process_refund id w = refund_found (find_transaction id w.transactions) w

pub data GasRequest : Type 0 where
  check_stuck : GasRequest
  speed_up_one : ℕ → Decimal → GasRequest
  refund_one : ℕ → GasRequest

module _ (gas : Gas) where
  unfoldable pub handle_gas : GasRequest → World → World
  unfolding check_stuck_transactions speed_up_transaction process_refund
  handle_gas check_stuck w = (check_stuck_transactions w).1
  handle_gas (speed_up_one id multiplier) w = (speed_up_transaction gas id multiplier w).1
  handle_gas (refund_one id) w = (process_refund gas id w).1

  unfoldable pub serve_gas : List GasRequest → World → World
  unfolding handle_gas
  serve_gas [] w = w
  serve_gas (r ∷ rs) w = serve_gas rs (handle_gas r w)

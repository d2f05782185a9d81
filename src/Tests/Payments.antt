-- ===== src/Tests/Payments.antt =====
-- The theorems on payments (payment.service.ts) at the exchange of Tests.
use prop_x_exchange.Prelude.{suc, ℕ, Option, List, arith, if◌then◌else◌, ◌==◌}
use prop_x_exchange.Exchange.{deposit, withdraw, tx_pending}
use prop_x_exchange.Payments.Jobs.{Transfer, check_pending}
use prop_x_exchange.Payments.Turns.{IsBalanced}
use prop_x_exchange.Payments.Confirmations.{check_pending-IsBalanced}
use prop_x_exchange.Prelude.{◌≡◌, ◌≢◌, refl, true, none, some, [], ◌∷◌}
use prop_x_exchange.Prelude.Int.{pos, ◌+ℤ◌, ◌-ℤ◌}
use prop_x_exchange.Exchange.{Transaction, tx_completed, World}
use prop_x_exchange.Balances.Effects.{Effect}
use prop_x_exchange.Payments.{
  deposit_demo, TransferRequest, process_transfer, process_withdrawal, admin_update_withdraw_status,
}
use prop_x_exchange.Tables.Users.{User}
use prop_x_exchange.Payments.Gas.{Gas}
use prop_x_exchange.Payments.Refunds.{GasRequest, check_stuck, speed_up_one, refund_one, serve_gas}
use prop_x_exchange.Payments.Attempts.{IsCounted, attempts_on}
use prop_x_exchange.Payments.GasRequests.{serve_gas-IsCounted}
use prop_x_exchange.Payments.Table.{find_transaction}
use prop_x_exchange.Payments.Effects.{available_change, locked_change, withdraw_status-Effect}
use prop_x_exchange.Payments.Transfers.{IsNamed, Among, Paid, process_transfer-Paid}
use prop_x_exchange.Tests.{rows, exchange}

-- The database reports one conflict, and the second attempt locks the funds.
abbrev after_withdrawal : World
after_withdrawal = (process_withdrawal 5 (true ∷ []) 1 (pos 30) (some 50) exchange).1

abbrev after_completion : World
after_completion = (admin_update_withdraw_status 20 tx_completed after_withdrawal).1

withdraw_status-Effect_example :
    (t : Transaction) × (find_transaction 20 after_withdrawal.transactions ≡ some t)
    × Effect t.user_id none
        (available_change tx_completed t.amount)
        (locked_change tx_completed t.amount)
        after_withdrawal.balances
        after_completion.balances
unfolding admin_update_withdraw_status process_withdrawal ◌+ℤ◌ ◌-ℤ◌ find_transaction
    prop_x_exchange.Payments.once_for_key prop_x_exchange.Payments.Table.find_by_idempotency_key
    prop_x_exchange.Payments.Table.keyed_transaction prop_x_exchange.Balances.with_retries
    prop_x_exchange.Balances.transfer_between_available_and_locked
    prop_x_exchange.Balances.Table.find_balance prop_x_exchange.Balances.create_transaction
    prop_x_exchange.Payments.write_withdraw_status prop_x_exchange.Payments.Table.update_transaction
    prop_x_exchange.Payments.apply_withdrawal_status prop_x_exchange.Balances.update_balance
    prop_x_exchange.Balances.Table.put_balance
withdraw_status-Effect_example =
    withdraw_status-Effect 20 tx_completed after_withdrawal after_completion refl

abbrev gift : TransferRequest
gift = record { amount = pos 25; idempotency_key = some 60; to_user_id = none; to_email = some 102 }

abbrev after_gift : World
after_gift = (process_transfer 1 gift exchange).1

process_transfer-Paid_example :
    (receiver : User) × IsNamed none (some 102) receiver
    × Among receiver exchange.users
    × (receiver.id ≢ 1)
    × Paid 1 receiver.id (pos 25) rows after_gift.balances
unfolding process_transfer ◌+ℤ◌ ◌-ℤ◌ prop_x_exchange.Payments.Table.find_by_idempotency_key
    prop_x_exchange.Payments.Table.keyed_transaction prop_x_exchange.Payments.once_for_key
    prop_x_exchange.Payments.transfer_new prop_x_exchange.Payments.find_receiver
    prop_x_exchange.Users.Table.find_user_by_email prop_x_exchange.Balances.transaction
    prop_x_exchange.Payments.write_transfer prop_x_exchange.Payments.transfer_available_balance
    prop_x_exchange.Balances.update_balance prop_x_exchange.Balances.Table.find_balance
    prop_x_exchange.Balances.Table.put_balance
process_transfer-Paid_example = process_transfer-Paid 1 gift 20 exchange after_gift refl refl

abbrev paid_in : Transaction
paid_in = record {
  id = 30;
  user_id = 1;
  type = deposit;
  amount = pos 12;
  fee = pos 0;
  status = tx_pending;
  idempotency_key = none;
  tx_hash = some 801;
  confirmations = 0;
  created_at = 0;
  gas_price = none;
  last_gas_price = none;
  speed_up_attempts = 0;
  stuck_since = none;
  refund_tx_hash = none;
}

-- A deposit and a withdrawal wait, and the chain confirms the deposit only.
abbrev waiting : World
waiting = record exchange {
  db = record exchange.db {
    transactions = paid_in ∷ record paid_in { id = 31; type = withdraw; tx_hash = some 802 } ∷ [];
  };
}

abbrev seen : ℕ → Option ℕ
seen h = some (if h == 801 then 9 else 2)

check_pending-IsBalanced_example : IsBalanced waiting (check_pending seen (some 6) waiting)
check_pending-IsBalanced_example =
    check_pending-IsBalanced seen (some 6) waiting ((ground arith, tt), (tt, tt))

abbrev arrived : List Transfer
arrived =
    record { tx_hash = 901; from = 501; amount = pos 40 }
    ∷ record { tx_hash = 902; from = 999; amount = pos 7 }
    ∷ []

abbrev blocks : ℕ → ℕ → Option (List Transfer)
blocks from to = some arrived

-- Every call of the chain succeeds.
abbrev chain : Gas
chain = record {
  current_price = λ w. some (pos 20);
  speed_up = λ w hash address amount price. some (suc hash);
  estimate_cost = λ w amount price. some (pos 3);
  refund = λ w hash. some (suc hash);
  raised = λ price multiplier. price +ℤ pos 5;
  least_multiplier = pos 1;
  greatest_multiplier = pos 3;
}

abbrev gas_requests : List GasRequest
gas_requests = check_stuck ∷ speed_up_one 31 (pos 2) ∷ speed_up_one 31 (pos 2) ∷ refund_one 31 ∷ []

-- The withdrawal is sped up by both requests.
sped_up_twice : attempts_on 31 (serve_gas chain gas_requests waiting).gas_speed_up_attempts ≡ 2
unfolding prop_x_exchange.Prelude.Rows.count_where serve_gas find_transaction
    prop_x_exchange.Prelude.Rows.select prop_x_exchange.Payments.Gas.speed_up_error ◌+ℤ◌
    prop_x_exchange.Users.Table.find_user prop_x_exchange.Balances.transaction
    prop_x_exchange.Payments.Table.update_transaction prop_x_exchange.Users.Table.create_audit
    prop_x_exchange.Payments.Table.put_transaction
sped_up_twice = refl

serve_gas-IsCounted_example : IsCounted (serve_gas chain gas_requests waiting)
unfolding find_transaction prop_x_exchange.Prelude.Rows.count_where
serve_gas-IsCounted_example =
    serve_gas-IsCounted chain gas_requests waiting (record { counts = λ id t e. ground arith })

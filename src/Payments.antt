-- ===== src/Payments.antt =====
-- modules/payment/services/payment-ledger.service.ts and the operations of payment.service.ts that
-- move money.
pub mod Table
pub mod Effects
pub mod Transfers
pub mod Repeats
pub mod Jobs
pub mod Tally
pub mod Turns
pub mod Scans
pub mod Gas
pub mod Refunds
pub mod Attempts
pub mod SpeedUps
pub mod GasRequests
pub mod Confirmations
use Table.{find_transaction, find_by_idempotency_key, update_transaction}
use prop_x_exchange.Users.Table.{find_user, find_user_by_email}
use prop_x_exchange.Tables.Users.{User}
use prop_x_exchange.Prelude.{ℕ, ⊤, Bool, true, false, Option, none, some, List, [], ◌∷◌, ◌++◌, ◌==◌}
use prop_x_exchange.Prelude.Int.{pos, leb_ℤ}
use prop_x_exchange.Errors.{
  transfer_not_positive, receiver_required, receiver_not_found, transfer_to_self,
  transaction_not_found,
}
use prop_x_exchange.Exec.{pure, raise, raise_if, or_raise, gets, modify, ◌>>=◌, ◌>>◌}
use prop_x_exchange.Exchange.{
  Decimal, Transaction, deposit, withdraw, transfer, TransactionStatus, tx_pending, tx_processing,
  tx_completed, tx_failed, tx_cancelled, World, Action,
}
use prop_x_exchange.Balances.{
  credit, debit, default_options, locked_only, update_balance, available_to_locked,
  locked_to_available, transfer_between_available_and_locked, create_transaction, transaction,
  with_retries,
}

pub record TransferRequest : Type 0 where
  pub amount : Decimal
  pub idempotency_key : Option ℕ
  pub to_user_id : Option ℕ
  -- in lower case, without blanks around it
  pub to_email : Option ℕ

-- `{ success: true, transactionId }`, of which the id is kept
abbrev pub PaymentReply : Type 0
PaymentReply = ℕ

unfoldable pub credit_deposit : ℕ → Decimal → Action ⊤
credit_deposit user_id amount = update_balance user_id none amount credit default_options >> pure tt

unfoldable pub transfer_available_balance : ℕ → ℕ → Decimal → Action ⊤
transfer_available_balance from_user_id to_user_id amount = do
  update_balance from_user_id none amount debit default_options
  update_balance to_user_id none amount credit default_options
  pure tt

unfoldable pub apply_withdrawal_status : ℕ → Decimal → TransactionStatus → Action ⊤
apply_withdrawal_status user_id amount tx_completed =
    update_balance user_id none amount debit locked_only >> pure tt
apply_withdrawal_status user_id amount tx_failed =
    transfer_between_available_and_locked user_id none amount locked_to_available >> pure tt
apply_withdrawal_status user_id amount tx_cancelled =
    transfer_between_available_and_locked user_id none amount locked_to_available >> pure tt
apply_withdrawal_status user_id amount tx_pending = pure tt
apply_withdrawal_status user_id amount tx_processing = pure tt

-- The answer for a key that a transaction has, or what `new` does.
unfoldable pub answer_or_run : Action PaymentReply → Option Transaction → Action PaymentReply
answer_or_run new (some t) = pure t.id
answer_or_run new none = new

unfoldable pub once_for_key : Option ℕ → Action PaymentReply → Action PaymentReply
unfolding answer_or_run
once_for_key key new = do
  existing ← gets (λ w. find_by_idempotency_key key w.transactions)
  answer_or_run new existing

unfoldable pub write_deposit : ℕ → Decimal → Option ℕ → Action Transaction
write_deposit user_id amount key =
    credit_deposit user_id amount
    >> create_transaction user_id deposit amount (pos 0) tx_completed key none

unfoldable pub deposit_new : ℕ → Decimal → Option ℕ → Action PaymentReply
deposit_new user_id amount key = do
  row ← transaction (write_deposit user_id amount key)
  pure row.id

unfoldable pub deposit_demo : ℕ → Decimal → Option ℕ → Action PaymentReply
deposit_demo user_id amount key = do
  raise_if (leb_ℤ amount (pos 0)) transfer_not_positive
  once_for_key key (deposit_new user_id amount key)

abbrev pub queue_payment : ℕ → Action ⊤
queue_payment id = modify λ w. record w { payment_jobs = w.payment_jobs ++ id ∷ [] }

-- The retries that the environment allows, and the conflicts that the database reports.
module _ (retries : ℕ) (conflicts : List Bool) where
  unfoldable pub lock_withdrawal_funds : ℕ → Decimal → Action ⊤
  lock_withdrawal_funds user_id amount =
      with_retries retries conflicts
        (transfer_between_available_and_locked user_id none amount available_to_locked)
      >> pure tt

  unfoldable pub withdraw_new : ℕ → Decimal → Option ℕ → Action PaymentReply
  unfolding lock_withdrawal_funds
  withdraw_new user_id amount key = do
    lock_withdrawal_funds user_id amount
    row ← create_transaction user_id withdraw amount (pos 0) tx_pending key none
    queue_payment row.id
    pure row.id

  unfoldable pub process_withdrawal : ℕ → Decimal → Option ℕ → Action PaymentReply
  unfolding withdraw_new
  process_withdrawal user_id amount key = once_for_key key (withdraw_new user_id amount key)

-- `toUserId` goes before `toEmail`.
unfoldable pub find_receiver : Option ℕ → Option ℕ → Action (Option User)
find_receiver (some id) email = gets (λ w. find_user id w.users)
find_receiver none (some email) = gets (λ w. find_user_by_email email w.users)
find_receiver none none = raise receiver_required

unfoldable pub write_transfer : ℕ → ℕ → Decimal → Option ℕ → Action Transaction
write_transfer from_user_id to_user_id amount key = do
  transfer_available_balance from_user_id to_user_id amount
  out ← create_transaction from_user_id transfer amount (pos 0) tx_completed key none
  create_transaction to_user_id transfer amount (pos 0) tx_completed none none
  pure out

unfoldable pub transfer_new : ℕ → TransferRequest → Action PaymentReply
transfer_new user_id dto = do
  found ← find_receiver dto.to_user_id dto.to_email
  receiver ← or_raise found receiver_not_found
  raise_if (receiver.id == user_id) transfer_to_self
  row ← transaction (write_transfer user_id receiver.id dto.amount dto.idempotency_key)
  pure row.id

unfoldable pub process_transfer : ℕ → TransferRequest → Action PaymentReply
process_transfer user_id dto = do
  raise_if (leb_ℤ dto.amount (pos 0)) transfer_not_positive
  once_for_key dto.idempotency_key (transfer_new user_id dto)

-- The writes of `adminUpdateWithdrawStatus`, in one transaction.
unfoldable pub write_withdraw_status : Transaction → TransactionStatus → Action ⊤
write_withdraw_status t status = do
  update_transaction t.id (λ row. record row { status = status })
  apply_withdrawal_status t.user_id t.amount status

unfoldable pub admin_update_withdraw_status : ℕ → TransactionStatus → Action ⊤
admin_update_withdraw_status id status = do
  found ← gets (λ w. find_transaction id w.transactions)
  row ← or_raise found transaction_not_found
  transaction (write_withdraw_status row status)

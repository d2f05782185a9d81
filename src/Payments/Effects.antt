-- ===== src/Payments/Effects.antt =====
-- `adminUpdateWithdrawStatus` of payment.service.ts: what it does to the wallets.
use prop_x_exchange.Prelude.{ℕ, ⊤, ◌≡◌, none, some, Option-cases, inl, inr, arith}
use prop_x_exchange.Prelude.Int.{ℤ, pos, ◌-ℤ◌}
use prop_x_exchange.Exec.{ok, pure, ◌>>◌, >>=-eq-ok}
use prop_x_exchange.Exchange.{
  Decimal, Transaction, TransactionStatus, tx_pending, tx_processing, tx_completed, tx_failed,
  tx_cancelled, World, Action,
}
use prop_x_exchange.Balances.{
  debit, locked_only, update_balance, locked_to_available, transfer_between_available_and_locked,
  transaction,
}
use prop_x_exchange.Balances.Effects.{Effect, no-Effect}
use prop_x_exchange.Balances.Outcomes.{update_balance-Effect, transfer-Effect}
use prop_x_exchange.Payments.{
  apply_withdrawal_status, write_withdraw_status, admin_update_withdraw_status,
}
use prop_x_exchange.Payments.Table.{find_transaction, update_transaction}

-- What a status of a withdrawal changes in the available and in the locked column.
abbrev pub available_change : TransactionStatus → Decimal → ℤ
available_change tx_failed x = pos 0 -ℤ (pos 0 -ℤ x)
available_change tx_cancelled x = pos 0 -ℤ (pos 0 -ℤ x)
available_change _ x = pos 0

abbrev pub locked_change : TransactionStatus → Decimal → ℤ
locked_change tx_pending x = pos 0
locked_change tx_processing x = pos 0
locked_change _ x = pos 0 -ℤ x

abbrev release : ℕ → Decimal → Action ⊤
release u x = transfer_between_available_and_locked u none x locked_to_available >> pure tt

released-Effect :
    (u : ℕ) (x : Decimal) (w w' : World)
    → release u x w ≡ (ok tt, w')
    → Effect u none (pos 0 -ℤ (pos 0 -ℤ x)) (pos 0 -ℤ x) w.balances w'.balances
released-Effect u x w w' h =
    let (n, w1, e, k) =
      >>=-eq-ok (transfer_between_available_and_locked u none x locked_to_available) (λ _. pure tt)
        w h in
    let same : w1 ≡ w' = cc in rw same at (transfer-Effect u none x locked_to_available w w1 e)

status-Effect :
    (u : ℕ) (x : Decimal) (s : TransactionStatus) (w w' : World)
    → apply_withdrawal_status u x s w ≡ (ok tt, w')
    → Effect u none (available_change s x) (locked_change s x) w.balances w'.balances
unfolding apply_withdrawal_status
status-Effect u x tx_completed w w' h =
    let (n, w1, e, k) = >>=-eq-ok (update_balance u none x debit locked_only) (λ _. pure tt) w h in
    let same : w1 ≡ w' = cc in rw same at (update_balance-Effect u none x debit locked_only w w1 e)
status-Effect u x tx_failed w w' h = released-Effect u x w w' h
status-Effect u x tx_cancelled w w' h = released-Effect u x w w' h
status-Effect u x tx_pending w w' h =
    let same : w ≡ w' = cc in rw same (no-Effect u none w'.balances)
status-Effect u x tx_processing w w' h =
    let same : w ≡ w' = cc in rw same (no-Effect u none w'.balances)

update_transaction-balances :
    (id : ℕ) (f : Transaction → Transaction) (t : Transaction) (w w' : World)
    → update_transaction id f w ≡ (ok t, w')
    → w'.balances ≡ w.balances
unfolding update_transaction
update_transaction-balances id f t w w' h = ground arith

writes-Effect :
    (t : Transaction) (s : TransactionStatus) (w w' : World)
    → write_withdraw_status t s w ≡ (ok tt, w')
    → Effect t.user_id none
        (available_change s t.amount)
        (locked_change s t.amount)
        w.balances
        w'.balances
unfolding write_withdraw_status
writes-Effect t s w w' k =
    let change : Transaction → Transaction = λ row. record row { status = s } in
    let (n, w1, e, k1) =
      >>=-eq-ok (update_transaction t.id change) (λ _. apply_withdrawal_status t.user_id t.amount s)
        w k in
    let same : w1.balances ≡ w.balances = update_transaction-balances t.id change n w w1 e in
    rw same at (status-Effect t.user_id t.amount s w1 w' k1)

-- Whatever status a transaction has, an administrator's request for another that returns changes one
-- wallet only, that of the transaction's user: a completion takes the amount from the locked column,
-- a failure or a cancellation moves it back to the available one, and any other status changes
-- nothing.
pub withdraw_status-Effect :
    (id : ℕ) (s : TransactionStatus) (w w' : World)
    → admin_update_withdraw_status id s w ≡ (ok tt, w')
    → (t : Transaction) × (find_transaction id w.transactions ≡ some t)
      × Effect t.user_id none
          (available_change s t.amount)
          (locked_change s t.amount)
          w.balances
          w'.balances
withdraw_status-Effect id s w w' h = elim (Option-cases (find_transaction id w.transactions)) [
  | inl e ↦ unfold admin_update_withdraw_status in absurd (ground arith)
  | inr (t, e) ↦
      let writes : write_withdraw_status t s w ≡ (ok tt, w') =
        unfold admin_update_withdraw_status transaction in ground arith in
      (t, e, writes-Effect t s w w' writes)
]

-- ===== src/Payments/Repeats.antt =====
-- The idempotency keys of payment.service.ts: a request that is sent again.
use prop_x_exchange.Prelude.{
  ℕ, ◌≡◌, refl, Bool, Option, none, some, Option-cases, inl, inr, List, ◌∷◌, arith,
}
use prop_x_exchange.Prelude.Int.{leb_ℤ, pos}
use prop_x_exchange.Errors.{transfer_not_positive}
use prop_x_exchange.Exec.{raise_if, raise_if-eq-ok, ok, pure, ◌>>=◌, ◌>>◌, >>=-eq-ok}
use prop_x_exchange.Exchange.{
  deposit, tx_completed, Decimal, Transaction, TransactionType, TransactionStatus, withdraw,
  tx_pending, World, Action,
}
use prop_x_exchange.Balances.{transaction, create_transaction}
use prop_x_exchange.Payments.{
  deposit_new, deposit_demo, write_deposit, credit_deposit, PaymentReply, once_for_key,
  answer_or_run, lock_withdrawal_funds, withdraw_new, process_withdrawal, queue_payment,
}
use prop_x_exchange.Payments.Table.{keyed_transaction, find_by_idempotency_key}

-- The new transaction of a request carries its key.
abbrev LeavesKey : ℕ → Action PaymentReply → Type 0
LeavesKey k new =
    (w w' : World) (id : ℕ)
    → new w ≡ (ok id, w')
    → (t : Transaction) × (keyed_transaction k w'.transactions ≡ some t) × (id ≡ t.id)

once_twice :
    (k : ℕ) (new : Action PaymentReply) (w w' : World) (id : ℕ)
    → LeavesKey k new
    → once_for_key (some k) new w ≡ (ok id, w')
    → once_for_key (some k) new w' ≡ (ok id, w')
once_twice k new w w' id leaves h = elim (Option-cases (keyed_transaction k w.transactions)) [
  | inl e ↦
      let run : new w ≡ (ok id, w') =
        unfold once_for_key answer_or_run find_by_idempotency_key in ground arith in
      let (t, found, same) = leaves w w' id run in
      unfold once_for_key find_by_idempotency_key answer_or_run in rw (found, same) refl
  | inr (t, e) ↦ unfold once_for_key answer_or_run find_by_idempotency_key in ground arith
]

created :
    (k u : ℕ) (ty : TransactionType) (x fee : Decimal) (s : TransactionStatus) (hash : Option ℕ)
    (t : Transaction) (w w' : World)
    → create_transaction u ty x fee s (some k) hash w ≡ (ok t, w')
    → keyed_transaction k w'.transactions ≡ some t
created k u ty x fee s hash t w w' h =
    let row : w'.transactions ≡ t ∷ w.transactions = unfold create_transaction in cc in
    let has_key : t.idempotency_key ≡ some k = unfold create_transaction in cc in
    unfold keyed_transaction in rw (row, has_key) (ground arith)

module _ (retries : ℕ) (conflicts : List Bool) (u : ℕ) (x : Decimal) (k : ℕ) where
  queue_row : Transaction → Action PaymentReply
  queue_row row = queue_payment row.id >> pure row.id

  record_withdrawal : Action PaymentReply
  record_withdrawal = create_transaction u withdraw x (pos 0) tx_pending (some k) none >>= queue_row

  queued_row :
      (t : Transaction) (w w' : World) (id : ℕ)
      → queue_row t w ≡ (ok id, w')
      → (w'.transactions ≡ w.transactions) × (id ≡ t.id)
  unfolding queue_row
  queued_row t w w' id h = (cc, cc)

  withdraw-LeavesKey : LeavesKey k (withdraw_new retries conflicts u x (some k))
  unfolding withdraw_new record_withdrawal queue_row
  withdraw-LeavesKey w w' id h =
      let (_, w1, e1, h1) =
        >>=-eq-ok (lock_withdrawal_funds retries conflicts u x) (λ _. record_withdrawal) w h in
      let (t, w2, e2, h2) =
        >>=-eq-ok (create_transaction u withdraw x (pos 0) tx_pending (some k) none) queue_row w1
          h1 in
      let (rows, same) = queued_row t w2 w' id h2 in
      (t, rw rows (created k u withdraw x (pos 0) tx_pending none t w1 w2 e2), same)

  -- A withdrawal that carries a key and is answered, sent again, gets the same answer and changes
  -- nothing.
  pub withdraw_twice :
      (w w' : World) (id : ℕ)
      → process_withdrawal retries conflicts u x (some k) w ≡ (ok id, w')
      → process_withdrawal retries conflicts u x (some k) w' ≡ (ok id, w')
  unfolding process_withdrawal
  withdraw_twice w w' id h =
      once_twice k (withdraw_new retries conflicts u x (some k)) w w' id withdraw-LeavesKey h

module _ (u : ℕ) (x : Decimal) (k : ℕ) where
  deposit-LeavesKey : LeavesKey k (deposit_new u x (some k))
  unfolding deposit_new
  deposit-LeavesKey w w' id h =
      let (t, w1, e, h1) =
        >>=-eq-ok (transaction (write_deposit u x (some k))) (λ row. pure row.id) w h in
      let written : write_deposit u x (some k) w ≡ (ok t, w1) =
        unfold transaction in ground arith in
      let steps : (credit_deposit u x
              >> create_transaction u deposit x (pos 0) tx_completed (some k) none)
            w
          ≡ (ok t, w1) =
        unfold write_deposit in written in
      let (_, w2, e2, h2) =
        >>=-eq-ok (credit_deposit u x)
          (λ _. create_transaction u deposit x (pos 0) tx_completed (some k) none) w steps in
      let found = created k u deposit x (pos 0) tx_completed none t w2 w1 h2 in
      let same : w1 ≡ w' = cc in (t, rw same at found, cc)

  -- A deposit that carries a key and is answered, sent again, gets the same answer and changes
  -- nothing.
  pub deposit_twice :
      (w w' : World) (id : ℕ)
      → deposit_demo u x (some k) w ≡ (ok id, w')
      → deposit_demo u x (some k) w' ≡ (ok id, w')
  deposit_twice w w' id h =
      let steps : (raise_if (leb_ℤ x (pos 0)) transfer_not_positive
              >> once_for_key (some k) (deposit_new u x (some k)))
            w
          ≡ (ok id, w') =
        unfold deposit_demo in h in
      let (positive, run) =
        raise_if-eq-ok (leb_ℤ x (pos 0)) transfer_not_positive
          (once_for_key (some k) (deposit_new u x (some k))) w steps in
      let again = once_twice k (deposit_new u x (some k)) w w' id deposit-LeavesKey run in
      unfold deposit_demo in rw positive again

-- ===== src/Payments/Jobs.antt =====
-- The jobs of modules/payment/jobs: deposit-scanner.cron.ts, transactions.cron.ts and
-- transaction-processing.processor.ts. What a job only logs is no error.
use prop_x_exchange.Prelude.{
  is_some, ℕ, ◌+◌, ◌-◌, ⊤, Bool, true, false, not, ◌&&◌, leb, Option, none, some, List, [], ◌∷◌,
  ◌==◌, if◌then◌else◌,
}
use prop_x_exchange.Prelude.Int.{pos, ◌+ℤ◌, ◌-ℤ◌}
use prop_x_exchange.Prelude.Rows.{find_first, select, update_where}
use prop_x_exchange.Errors.{withdrawal_failed}
use prop_x_exchange.Exec.{ok, pure, raise, gets, or_raise, modify, ◌>>=◌, ◌>>◌}
use prop_x_exchange.Exchange.{
  Decimal, Balance, Transaction, TransactionType, TransactionStatus, deposit, withdraw, tx_pending,
  tx_completed, tx_failed, World, Action,
}
use prop_x_exchange.Tables.Users.{User}
use prop_x_exchange.Users.Table.{find_user}
use prop_x_exchange.Balances.{transaction, create_transaction}
use prop_x_exchange.Balances.Table.{is_row}
use prop_x_exchange.Payments.Table.{find_transaction, update_transaction}

-- A transfer of the stablecoin that the chain reports.
pub record Transfer : Type 0 where
  pub tx_hash : ℕ
  pub from : ℕ
  pub amount : Decimal

abbrev pub is_deposit : TransactionType → Bool
is_deposit deposit = true
is_deposit _ = false

abbrev pub is_withdraw : TransactionType → Bool
is_withdraw withdraw = true
is_withdraw _ = false

abbrev pub is_pending : TransactionStatus → Bool
is_pending tx_pending = true
is_pending _ = false

abbrev pub is_at : ℕ → Option ℕ → Bool
is_at h none = false
is_at h (some k) = k == h

-- `transaction.findFirst({ where: { txHash, type: 'DEPOSIT' } })`
abbrev pub is_deposit_of : ℕ → Transaction → Bool
is_deposit_of h t = is_deposit t.type && is_at h t.tx_hash

abbrev pub has_wallet : ℕ → User → Bool
has_wallet a u = is_at a u.wallet_address

-- The hash is a unique column: a row with it makes the insertion fail, which is only logged.
unfoldable pub insert_deposit : ℕ → Transfer → Option Transaction → World → World
unfolding create_transaction
insert_deposit user_id t (some taken) w = w
insert_deposit user_id t none w =
    (create_transaction user_id deposit t.amount (pos 0) tx_pending none (some t.tx_hash) w).1

unfoldable pub register_deposit : ℕ → Transfer → Option Transaction → World → World
unfolding insert_deposit
register_deposit user_id t (some existing_tx) w = w
register_deposit user_id t none w =
    insert_deposit user_id t (find_first (λ row. is_at t.tx_hash row.tx_hash) w.transactions) w

unfoldable pub register_for : Transfer → Option User → World → World
unfolding register_deposit
register_for t none w = w
register_for t (some u) w =
    register_deposit u.id t (find_first (is_deposit_of t.tx_hash) w.transactions) w

-- `processTransfer` of the scanner
unfoldable pub process_scanned : Transfer → World → World
unfolding register_for
process_scanned t w = register_for t (find_first (has_wallet t.from) w.users) w

unfoldable pub process_scanned_all : List Transfer → World → World
unfolding process_scanned
process_scanned_all [] w = w
process_scanned_all (t ∷ ts) w = process_scanned_all ts (process_scanned t w)

abbrev pub block_range_limit : ℕ
block_range_limit = 1000

-- `lastScannedBlock`, or a hundred blocks back where none is recorded
abbrev pub last_block : ℕ → Option ℕ → ℕ
last_block current none = current - 100
last_block current (some b) = b

abbrev pub to_block : ℕ → ℕ → ℕ
to_block current from_block =
    if leb current (from_block + block_range_limit) then current else from_block + block_range_limit

unfoldable pub scanned_to : ℕ → List Transfer → World → World
unfolding process_scanned_all
scanned_to b transfers w =
    let w' = process_scanned_all transfers w in
    record w' { db = record w'.db { last_scanned_block = some b } }

-- A block number or a list of transfers that the chain does not give ends the scan.
unfoldable pub scan_answer : ℕ → Option (List Transfer) → World → World
unfolding scanned_to
scan_answer b none w = w
scan_answer b (some transfers) w = scanned_to b transfers w

unfoldable pub scan_range : (ℕ → ℕ → Option (List Transfer)) → ℕ → ℕ → World → World
unfolding scan_answer
scan_range transfers_in current from_block w =
    let b = to_block current from_block in scan_answer b (transfers_in from_block b) w

unfoldable pub scan_deposits :
    (has_receiver : Bool) (current : Option ℕ) → (ℕ → ℕ → Option (List Transfer)) → World → World
unfolding scan_range
scan_deposits false current transfers_in w = w
scan_deposits true none transfers_in w = w
scan_deposits true (some current) transfers_in w =
    let b = last_block current w.last_scanned_block in
    if leb current b then w else scan_range transfers_in current (b + 1) w

-- `balance.updateMany({ where: { userId, assetId: null }, data })`
abbrev pub update_cash : ℕ → (Balance → Balance) → Action ⊤
update_cash u f =
    modify
      λ w. record w { db = record w.db { balances = update_where (is_row u none) f w.balances } }

abbrev pub credited : Decimal → Balance → Balance
credited x row = record row { available = row.available +ℤ x }

abbrev pub charged : Decimal → Balance → Balance
charged x row = record row { locked = row.locked -ℤ x }

-- What a confirmed transaction does to the wallet of its user.
unfoldable pub settle_cash : Transaction → Action ⊤
settle_cash t w =
    if is_deposit t.type
    then update_cash t.user_id (credited t.amount) w
    else if is_withdraw t.type
    then update_cash t.user_id (charged t.amount) w
    else (ok tt, w)

unfoldable pub write_completed : Transaction → Action ⊤
unfolding settle_cash
write_completed t = do
  update_transaction t.id (λ row. record row { status = tx_completed })
  settle_cash t

-- One turn of the loop: what it raises is caught there.
unfoldable pub confirm : ℕ → ℕ → Transaction → Action ⊤
unfolding write_completed
confirm required n t = do
  update_transaction t.id (λ row. record row { confirmations = n })
  if leb required n then transaction (write_completed t) else pure tt

-- The chain may give no number.
unfoldable pub confirm_at : ℕ → Transaction → Option ℕ → World → World
unfolding confirm
confirm_at required t none w = w
confirm_at required t (some n) w = (confirm required n t w).1

unfoldable pub check_hash : (ℕ → Option ℕ) → ℕ → Transaction → Option ℕ → World → World
unfolding confirm_at
check_hash confirmations required t none w = w
check_hash confirmations required t (some h) w = confirm_at required t (confirmations h) w

unfoldable pub check_transaction : (ℕ → Option ℕ) → ℕ → Transaction → World → World
unfolding check_hash
check_transaction confirmations required t w = check_hash confirmations required t t.tx_hash w

unfoldable pub check_each : (ℕ → Option ℕ) → ℕ → List Transaction → World → World
unfolding check_transaction
check_each confirmations required [] w = w
check_each confirmations required (t ∷ ts) w =
    check_each confirmations required ts (check_transaction confirmations required t w)

abbrev pub is_awaited : Transaction → Bool
is_awaited t = is_pending t.status && is_some t.tx_hash

-- `checkPendingTransactions`: the list is read once; with no number of confirmations to require the
-- run ends.
unfoldable pub check_pending : (ℕ → Option ℕ) → Option ℕ → World → World
unfolding check_each
check_pending confirmations none w = w
check_pending confirmations (some required) w =
    check_each confirmations required (select is_awaited w.transactions) w

abbrev pub is_sendable : Transaction → Bool
is_sendable t = is_pending t.status && is_withdraw t.type && not (is_some t.tx_hash)

abbrev pub address_of : Option User → Option ℕ
address_of none = none
address_of (some u) = u.wallet_address

-- The hash of a new row is a unique column.
abbrev pub unless_taken : Option Transaction → Action ⊤
unless_taken none = pure tt
unless_taken (some row) = raise withdrawal_failed

-- `executeWithdrawal` of the chain, to a wallet; the new hash goes into the row.
module _ (execute : ℕ → Decimal → Option ℕ) where
  unfoldable pub broadcast : Transaction → ℕ → Action ⊤
  broadcast t address = do
    h ← or_raise (execute address t.amount) withdrawal_failed
    taken ← gets (λ w. find_first (λ row. is_at h row.tx_hash) w.transactions)
    unless_taken taken
    update_transaction t.id (λ row. record row { tx_hash = some h })
    pure tt

  unfoldable pub send_to : Transaction → Option ℕ → Action ⊤
  unfolding broadcast
  send_to t none = update_transaction t.id (λ row. record row { status = tx_failed }) >> pure tt
  send_to t (some address) = broadcast t address

  -- `process` of the queue `transaction-processing`
  unfoldable pub process_payment_job : ℕ → Action ⊤
  unfolding send_to
  process_payment_job id w = elim (find_transaction id w.transactions) [
    | none ↦ (ok tt, w)
    | some t ↦
        if is_sendable t then send_to t (address_of (find_user t.user_id w.users)) w else (ok tt, w)
  ]

-- ===== src/Balances.antt =====
-- modules/balances/services/balances.service.ts
pub mod Table
pub mod Effects
pub mod Atomic
pub mod Always
pub mod Frame
pub mod RoundTrip
pub mod Safety
pub mod Outcomes
pub mod Views
pub mod Refines
use Table.{find_balance, put_balance}
use prop_x_exchange.Prelude.{
  ℕ, zero, suc, ⊤, Bool, true, false, ◌&&◌, Option, none, some, List, [], ◌∷◌, if◌then◌else◌,
}
use prop_x_exchange.Prelude.Int.{pos, ◌+ℤ◌, ◌-ℤ◌, ltb_ℤ, leb_ℤ}
use prop_x_exchange.Errors.{
  amount_not_positive, insufficient_balance, insufficient_available, insufficient_locked,
  balance_not_found, write_conflict,
}
use prop_x_exchange.Exec.{Result, ok, err, pure, raise, lift, gets, ◌>>=◌, ◌>>◌, raise_if, modify}
use prop_x_exchange.Exchange.{
  Decimal, Balance, Transaction, TransactionType, TransactionStatus, World, Action,
}

-- The argument `type` of `updateBalance`.
pub data UpdateType : Type 0 where
  credit debit : UpdateType

-- The argument `direction` of `transferBetweenAvailableAndLocked`.
pub data Direction : Type 0 where
  available_to_locked locked_to_available : Direction

pub record TransactionData : Type 0 where
  pub type : TransactionType
  pub status : TransactionStatus
  pub fee : Option Decimal
  pub idempotency_key : Option ℕ
  pub tx_hash : Option ℕ

pub record UpdateOptions : Type 0 where
  pub use_available : Bool
  pub use_locked : Bool
  pub transaction_data : Option TransactionData

abbrev pub default_options : UpdateOptions
default_options = record { use_available = true; use_locked = false; transaction_data = none }

-- `{ useLocked: true, useAvailable: false }`
abbrev pub locked_only : UpdateOptions
locked_only = record { use_available = false; use_locked = true; transaction_data = none }

abbrev pub get_balance : ℕ → Option ℕ → Action (Option Balance)
get_balance u a = gets (λ w. find_balance u a w.balances)

-- `balance.update` of the row that was found
abbrev pub save_balance : Balance → Action ⊤
save_balance n = modify λ w. record w { db = record w.db { balances = put_balance n w.balances } }

-- `balance.create` with nothing in it
abbrev create_balance : ℕ → Option ℕ → Action Balance
create_balance u a w =
    let row : Balance = record { user_id = u; asset_id = a; available = pos 0; locked = pos 0 } in
    (ok row, record w { db = record w.db { balances = row ∷ w.balances } })

-- `transaction.create`; the database chooses the id. That it refuses a key or a hash that a row has
-- is not modelled: the callers look the key up first.
unfoldable pub create_transaction :
    ℕ
    → TransactionType
    → Decimal
    → Decimal
    → TransactionStatus
    → Option ℕ
    → Option ℕ
    → Action Transaction
create_transaction u ty amount fee status key hash w =
    let row : Transaction = record {
      id = w.next_id;
      user_id = u;
      type = ty;
      amount = amount;
      fee = fee;
      status = status;
      idempotency_key = key;
      tx_hash = hash;
      confirmations = 0;
      created_at = w.now;
      gas_price = none;
      last_gas_price = none;
      speed_up_attempts = 0;
      stuck_since = none;
      refund_tx_hash = none;
    } in
    (
      ok row,
      record w {
        db = record w.db { transactions = row ∷ w.transactions };
        next_id = suc w.next_id;
      },
    )

-- The row that `updateBalance` works on: a credit creates one that is missing.
unfoldable pub wallet_for : ℕ → Option ℕ → UpdateType → Option Balance → Action Balance
wallet_for u a ty (some row) = pure row
wallet_for u a debit none = raise insufficient_balance
wallet_for u a credit none = create_balance u a

-- `updateData`, applied to the row
unfoldable pub changed_row : UpdateType → Decimal → UpdateOptions → Balance → Result Balance
changed_row credit amount o row = ok (record row {
  available = if o.use_available then row.available +ℤ amount else row.available;
  locked = if o.use_locked then row.locked +ℤ amount else row.locked;
})
changed_row debit amount o row =
    if o.use_available && ltb_ℤ row.available amount
    then err insufficient_available
    else if o.use_locked && ltb_ℤ row.locked amount
    then err insufficient_locked
    else ok (record row {
      available = if o.use_available then row.available -ℤ amount else row.available;
      locked = if o.use_locked then row.locked -ℤ amount else row.locked;
    })

or_zero : Option Decimal → Decimal
or_zero none = pos 0
or_zero (some d) = d

unfoldable pub record_transaction : ℕ → Decimal → Option TransactionData → Action ⊤
unfolding create_transaction or_zero
record_transaction u amount none = pure tt
record_transaction u amount (some d) =
    create_transaction u d.type amount (or_zero d.fee) d.status d.idempotency_key d.tx_hash
    >> pure tt

-- The writes of `updateBalance`, once the row is there.
unfoldable pub apply_update : ℕ → Decimal → UpdateType → UpdateOptions → Balance → Action Balance
unfolding changed_row record_transaction
apply_update user_id amount ty options row = do
  row' ← lift (changed_row ty amount options row)
  save_balance row'
  record_transaction user_id amount options.transaction_data
  pure row'

-- `updateBalance` inside a transaction of the caller
unfoldable pub update_balance : ℕ → Option ℕ → Decimal → UpdateType → UpdateOptions → Action Balance
unfolding wallet_for apply_update
update_balance user_id asset_id amount ty options = do
  raise_if (leb_ℤ amount (pos 0)) amount_not_positive
  found ← get_balance user_id asset_id
  row ← wallet_for user_id asset_id ty found
  apply_update user_id amount ty options row

unfoldable pub moved_row : Direction → Decimal → Balance → Result Balance
moved_row available_to_locked amount row =
    if ltb_ℤ row.available amount
    then err insufficient_available
    else ok (record row { available = row.available -ℤ amount; locked = row.locked +ℤ amount })
moved_row locked_to_available amount row =
    if ltb_ℤ row.locked amount
    then err insufficient_locked
    else ok (record row { available = row.available +ℤ amount; locked = row.locked -ℤ amount })

existing : Option Balance → Action Balance
existing none = raise balance_not_found
existing (some row) = pure row

-- `transferBetweenAvailableAndLocked` inside a transaction of the caller
unfoldable pub transfer_between_available_and_locked :
    ℕ → Option ℕ → Decimal → Direction → Action Balance
unfolding existing moved_row
transfer_between_available_and_locked user_id asset_id amount direction = do
  raise_if (leb_ℤ amount (pos 0)) amount_not_positive
  found ← get_balance user_id asset_id
  row ← existing found
  row' ← lift (moved_row direction amount row)
  save_balance row'
  pure row'

-- `prisma.$transaction`: an error restores the database, and nothing else.
unfoldable pub transaction : {A : Type 0} → Action A → Action A
transaction m w =
    let (r, w') = m w in elim r [ ok a ↦ (ok a, w') | err e ↦ (err e, record w' { db = w.db }) ]

-- The loop over `attempt`: each entry of the list says whether the database reports a write
-- conflict on that attempt (a deadlock rolls the attempt back). The first argument is the number
-- of retries that are left.
unfoldable pub with_retries : {A : Type 0} → ℕ → List Bool → Action A → Action A
unfolding transaction
with_retries retries [] m w = transaction m w
with_retries retries (false ∷ conflicts) m w = transaction m w
with_retries zero (true ∷ conflicts) m w = (err write_conflict, w)
with_retries (suc retries) (true ∷ conflicts) m w = with_retries retries conflicts m w

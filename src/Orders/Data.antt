-- ===== src/Orders/Data.antt =====
-- Requests and replies of modules/orders/services/orders.service.ts, and its tests on columns.
use prop_x_exchange.Prelude.{
  ℕ, suc, Bool, true, false, Option, none, some, List, [], ◌∷◌, ◌==◌, if◌then◌else◌,
}
use prop_x_exchange.Prelude.Int.{pos}
use prop_x_exchange.Errors.{Error}
use prop_x_exchange.Exchange.{
  Decimal, OrderSide, OrderType, market, limit, OrderStatus, pending, open_order, partially_filled,
  AssetTradingStatus, trading_open, Order,
}

-- `CreateOrderDto`, its decimals parsed
pub record CreateOrder : Type 0 where
  pub side : OrderSide
  pub type : OrderType
  pub asset_id : ℕ
  pub quantity : Decimal
  pub price : Option Decimal
  pub max_total_cost : Option Decimal
  pub idempotency_key : Option ℕ
  pub account_id : Option ℕ

pub record UpdateOrder : Type 0 where
  pub cancel : Bool
  pub price : Option Decimal
  pub account_id : Option ℕ

pub record OrderReply : Type 0 where
  pub order_id : ℕ
  pub status : OrderStatus

-- `{ success: true }` of a cancellation, or the new price of the order
pub data UpdateReply : Type 0 where
  cancelled_reply : UpdateReply
  repriced : OrderReply → Option Decimal → UpdateReply

-- `success` is that there is no error.
pub record CancelResult : Type 0 where
  pub order_id : ℕ
  pub error : Option Error

pub record BulkCancelReply : Type 0 where
  pub results : List CancelResult
  pub total : ℕ
  pub success_count : ℕ
  pub error_count : ℕ

abbrev pub length {ℓ} : {A : Type ℓ} → List A → ℕ
length [] = 0
length (x ∷ xs) = suc (length xs)

-- `results.filter((r) => r.success).length`
abbrev pub count_successes : List CancelResult → ℕ
count_successes [] = 0
count_successes (r ∷ rs) =
    let rest = count_successes rs in elim r.error [ none ↦ suc rest | some _ ↦ rest ]

-- A field that is `undefined` in the data of an update is left as it is.
abbrev pub or_keep {ℓ} : {A : Type ℓ} → Option A → Option A → Option A
or_keep none old = old
or_keep (some x) old = some x

-- `price || 0`
abbrev pub or_zero : Option Decimal → Decimal
or_zero none = pos 0
or_zero (some p) = p

-- A `Decimal?` column read by `asset.x ? … : null`, which takes every stored value
abbrev pub or_else : Option Decimal → Decimal → Decimal
or_else none d = d
or_else (some p) d = p

abbrev pub is_open : OrderStatus → Bool
is_open open_order = true
is_open _ = false

-- `['PENDING', 'OPEN', 'PARTIALLY_FILLED'].includes(status)`
abbrev pub is_cancellable : OrderStatus → Bool
is_cancellable pending = true
is_cancellable open_order = true
is_cancellable partially_filled = true
is_cancellable _ = false

-- `['PENDING', 'OPEN'].includes(status)`
abbrev pub is_updatable : OrderStatus → Bool
is_updatable pending = true
is_updatable open_order = true
is_updatable _ = false

abbrev pub is_trading_open : AssetTradingStatus → Bool
is_trading_open trading_open = true
is_trading_open _ = false

abbrev pub is_market : OrderType → Bool
is_market market = true
is_market limit = false

-- `order.findUnique({ where: { idempotencyKey } })`
unfoldable pub find_by_key : ℕ → List Order → Option Order
find_by_key k [] = none
find_by_key k (o ∷ rows) =
    let rest = find_by_key k rows in
    elim o.idempotency_key [ none ↦ rest | some j ↦ if j == k then some o else rest ]

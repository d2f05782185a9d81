-- ===== src/Orders/Create.antt =====
-- `validatePriceBand` and `createOrder` of modules/orders/services/orders.service.ts
use prop_x_exchange.Prelude.{
  Bool, true, false, ℕ, suc, ⊤, not, ◌||◌, Option, none, some, List, [], ◌∷◌, ◌++◌,
}
use prop_x_exchange.Prelude.Int.{pos, ◌+ℤ◌, ◌-ℤ◌, ltb_ℤ}
use prop_x_exchange.Errors.{
  database_failed, queue_failed, reference_price_missing, outside_price_band, asset_not_found,
  asset_not_tradable, max_total_cost_required,
}
use prop_x_exchange.Exec.{err, ok, pure, raise, raise_if, or_raise, gets, modify, ◌>>=◌, ◌>>◌}
use prop_x_exchange.Exchange.{
  Decimal, Arithmetic, OrderSide, buy, sell, OrderType, market, limit, open_order, Order, Asset,
  Action,
}
use prop_x_exchange.Balances.{transaction}
use prop_x_exchange.Ledger.{lock_order_funds}
use prop_x_exchange.Orders.Table.{find_asset}
use prop_x_exchange.Orders.Data.{
  CreateOrder, OrderReply, or_zero, or_else, is_trading_open, find_by_key,
}

-- What fails outside a transaction: the database at the insert of the order (a value that its column
-- does not take, too), and the queue.
pub record Faults : Type 0 where
  pub at_insert : Bool
  pub at_queue : Bool

-- `order.create`
unfoldable pub insert_order : Bool → ℕ → CreateOrder → Decimal → Action Order
insert_order true user_id dto price w = (err database_failed, w)
insert_order false user_id dto price w =
    let row : Order = record {
      id = w.next_id;
      user_id = user_id;
      asset_id = dto.asset_id;
      side = dto.side;
      type = dto.type;
      price = some price;
      quantity = dto.quantity;
      filled_quantity = pos 0;
      status = open_order;
      created_at = w.now;
      idempotency_key = dto.idempotency_key;
      account_id = dto.account_id;
    } in
    (ok row, record w { db = record w.db { orders = row ∷ w.orders }; next_id = suc w.next_id })

-- `queueOrder`: a job for the worker of the asset
abbrev pub queue_order : Bool → ℕ → Action ⊤
queue_order true id = raise queue_failed
queue_order false id = modify λ w. record w { matching_jobs = w.matching_jobs ++ id ∷ [] }

unfoldable pub existing_order : Option ℕ → List Order → Option Order
existing_order none rows = none
existing_order (some key) rows = find_by_key key rows

module _ (dec : Arithmetic) where
  lower_bound : Decimal → Decimal → Decimal
  lower_bound reference band = dec.times reference (dec.one -ℤ band)

  upper_bound : Decimal → Decimal → Decimal
  upper_bound reference band = dec.times reference (dec.one +ℤ band)

  -- `validatePriceBand`; `none` stands for `null`
  unfoldable pub validate_price_band : Decimal → Option Decimal → Option Decimal → Action ⊤
  unfolding lower_bound upper_bound
  validate_price_band order_price none band_percentage = raise reference_price_missing
  validate_price_band order_price (some reference) band_percentage =
      let band = or_zero band_percentage in
      raise_if
        (ltb_ℤ order_price (lower_bound reference band)
          || ltb_ℤ (upper_bound reference band) order_price)
        outside_price_band

  -- `maxTotalCost` is a text, so that it is tested only for being there.
  market_buy_price : CreateOrder → Action Decimal
  market_buy_price dto = do
    cost ← or_raise dto.max_total_cost max_total_cost_required
    pure (dec.div cost dto.quantity)

  limit_price : CreateOrder → Asset → Action Decimal
  unfolding validate_price_band
  limit_price dto asset = do
    validate_price_band (or_zero dto.price) (some (or_else asset.reference_price asset.token_price))
        (some asset.price_band_percentage)
    pure (or_zero dto.price)

  -- The price of a new order, by its type and side; that of a limit order is checked.
  unfoldable pub price_of_order : OrderType → OrderSide → CreateOrder → Asset → Action Decimal
  unfolding market_buy_price limit_price
  price_of_order market buy dto asset = market_buy_price dto
  price_of_order market sell dto asset = pure (pos 0)
  price_of_order limit side dto asset = limit_price dto asset

  -- `createOrder` for a key that no order has
  unfoldable pub place_order : Faults → ℕ → CreateOrder → Action OrderReply
  unfolding price_of_order insert_order
  place_order faults user_id dto = do
    found ← gets (λ w. find_asset dto.asset_id w.assets)
    asset ← or_raise found asset_not_found
    raise_if (not asset.is_active || not (is_trading_open asset.trading_status)) asset_not_tradable
    price ← price_of_order dto.type dto.side dto asset
    transaction (lock_order_funds dec user_id dto.side dto.asset_id dto.quantity price)
    order ← insert_order faults.at_insert user_id dto price
    queue_order faults.at_queue order.id
    pure (record { order_id = order.id; status = order.status })

  -- the answer for a key that an order has, or a new order
  unfoldable pub answer_or_place : Faults → ℕ → CreateOrder → Option Order → Action OrderReply
  unfolding place_order
  answer_or_place faults user_id dto (some order) =
      pure (record { order_id = order.id; status = order.status })
  answer_or_place faults user_id dto none = place_order faults user_id dto

  unfoldable pub create_order : Faults → ℕ → CreateOrder → Action OrderReply
  unfolding answer_or_place existing_order
  create_order faults user_id dto = do
    existing ← gets (λ w. existing_order dto.idempotency_key w.orders)
    answer_or_place faults user_id dto existing

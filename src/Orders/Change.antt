-- ===== src/Orders/Change.antt =====
-- `cancelOrder`, `updateOrder` and `bulkCancelOrders` of modules/orders/services/orders.service.ts
use prop_x_exchange.Prelude.{ℕ, ⊤, Bool, true, false, not, none, some, List, [], ◌∷◌, ◌-◌, ◌==◌}
use prop_x_exchange.Prelude.Int.{pos, ◌-ℤ◌, leb_ℤ}
use prop_x_exchange.Errors.{
  asset_not_found, order_not_found, not_order_owner, order_not_updatable,
  market_order_not_updatable, no_mutable_fields, price_not_positive, order_not_cancellable,
}
use prop_x_exchange.Exec.{ok, err, pure, raise_if, or_raise, gets, ◌>>=◌, ◌>>◌}
use prop_x_exchange.Exchange.{Arithmetic, cancelled, Order, World, Action}
use prop_x_exchange.Balances.{transaction}
use prop_x_exchange.Ledger.{unlock_order_remainder}
use prop_x_exchange.Orders.Table.{find_order, find_asset, update_order}
use prop_x_exchange.Orders.Data.{
  UpdateOrder, UpdateReply, CancelResult, BulkCancelReply, length, count_successes, or_keep,
  or_zero, is_cancellable, is_updatable, is_market, cancelled_reply, repriced,
}
use prop_x_exchange.Orders.Create.{validate_price_band}

module _ (dec : Arithmetic) where
  -- The writes of `cancelOrder`, in one transaction.
  unfoldable pub cancel_writes : ℕ → Order → Action ⊤
  cancel_writes user_id order = do
    update_order order.id (λ o. record o { status = cancelled })
    unlock_order_remainder dec user_id order.side order.asset_id
        (order.quantity -ℤ order.filled_quantity) (or_zero order.price)

  unfoldable pub cancel_order : ℕ → ℕ → Action ⊤
  unfolding cancel_writes
  cancel_order user_id order_id = do
    found ← gets (λ w. find_order order_id w.orders)
    order ← or_raise found order_not_found
    raise_if (not (order.user_id == user_id)) not_order_owner
    raise_if (not (is_cancellable order.status)) order_not_cancellable
    transaction (cancel_writes user_id order)

  -- The part of `updateOrder` that changes the price.
  unfoldable pub change_price : ℕ → UpdateOrder → Order → Action UpdateReply
  unfolding validate_price_band
  change_price order_id dto order = do
    raise_if (not (is_updatable order.status)) order_not_updatable
    raise_if (is_market order.type) market_order_not_updatable
    next_price ← or_raise dto.price no_mutable_fields
    raise_if (leb_ℤ next_price (pos 0)) price_not_positive
    found ← gets (λ w. find_asset order.asset_id w.assets)
    asset ← or_raise found asset_not_found
    validate_price_band dec next_price asset.reference_price (some asset.price_band_percentage)
    updated ←
        update_order order_id λ o. record o {
          price = some next_price;
          account_id = or_keep dto.account_id o.account_id;
        }
    pure (repriced (record { order_id = updated.id; status = updated.status }) updated.price)

  -- `if (dto.cancel)`
  unfoldable pub cancel_or_change : Bool → ℕ → ℕ → UpdateOrder → Order → Action UpdateReply
  unfolding cancel_order change_price
  cancel_or_change true user_id order_id dto order =
      cancel_order user_id order_id >> pure cancelled_reply
  cancel_or_change false user_id order_id dto order = change_price order_id dto order

  -- `updateOrder`
  unfoldable pub update_order_request : ℕ → ℕ → UpdateOrder → Action UpdateReply
  unfolding cancel_or_change
  update_order_request user_id order_id dto = do
    found ← gets (λ w. find_order order_id w.orders)
    order ← or_raise found order_not_found
    raise_if (not (order.user_id == user_id)) not_order_owner
    cancel_or_change dto.cancel user_id order_id dto order

  -- one turn of the loop of `bulkCancelOrders`, with its `try` and `catch`
  unfoldable pub cancel_result : ℕ → ℕ → World → CancelResult × World
  unfolding cancel_order
  cancel_result user_id order_id w =
      let (r, w') = cancel_order user_id order_id w in
      elim r [
        | ok _ ↦ (record { order_id = order_id; error = none }, w')
        | err e ↦ (record { order_id = order_id; error = some e }, w')
      ]

  unfoldable pub cancel_each : ℕ → List ℕ → World → List CancelResult × World
  unfolding cancel_result
  cancel_each user_id [] w = ([], w)
  cancel_each user_id (id ∷ ids) w =
      let (r, w') = cancel_result user_id id w in
      let (rs, w'') = cancel_each user_id ids w' in (r ∷ rs, w'')

  unfoldable pub bulk_cancel_orders : ℕ → List ℕ → World → BulkCancelReply × World
  unfolding cancel_each
  bulk_cancel_orders user_id ids w =
      let (rs, w') = cancel_each user_id ids w in
      let successes = count_successes rs in
      (
        record {
          results = rs;
          total = length rs;
          success_count = successes;
          error_count = length rs - successes;
        },
        w',
      )

-- ===== src/Matching.antt =====
-- modules/orders/services/order-matching.service.ts
pub mod Candidates
pub mod Loop
pub mod Amounts
pub mod Book
pub mod Priority
pub mod Conserves
use Candidates.{candidates}
use Loop.{Plan, Fill, plan_fills, budget_of}
use prop_x_exchange.Prelude.{
  ℕ, suc, ⊤, Bool, true, false, ◌&&◌, Option, none, some, List, [], ◌∷◌, ◌++◌, if◌then◌else◌,
}
use prop_x_exchange.Prelude.Int.{pos, ◌-ℤ◌, leb_ℤ, ltb_ℤ}
use prop_x_exchange.Exec.{ok, err, pure, modify, gets, ◌>>=◌, ◌>>◌}
use prop_x_exchange.Exchange.{
  Decimal, Arithmetic, OrderSide, buy, sell, OrderType, market, limit, cancelled, Order, World,
  Action,
}
use prop_x_exchange.Tables.Settling.{TradeData, Trade, unsettled}
use prop_x_exchange.Balances.{transaction}
use prop_x_exchange.Ledger.{settle_match, unlock_order_remainder, refund_buyer_price_improvement}
use prop_x_exchange.Orders.Table.{find_order, update_order, update_asset}
use prop_x_exchange.Orders.Data.{or_zero, is_open, length}

abbrev buyer_of : OrderSide → ℕ → ℕ → ℕ
buyer_of buy user other = user
buyer_of sell user other = other

abbrev seller_of : OrderSide → ℕ → ℕ → ℕ
seller_of buy user other = other
seller_of sell user other = user

abbrev pub trade_of : Order → Fill → TradeData
trade_of order f = record {
  asset_id = order.asset_id;
  buyer_id = buyer_of order.side order.user_id f.counterparty.user_id;
  seller_id = seller_of order.side order.user_id f.counterparty.user_id;
  price = f.price;
  quantity = f.quantity;
}

unfoldable pub create_trade : TradeData → Action ⊤
create_trade t w =
    let row : Trade = record {
      id = w.next_id;
      terms = t;
      settlement_status = unsettled;
      tx_hash = none;
      updated_at = w.now;
    } in
    (ok tt, record w { db = record w.db { trades = row ∷ w.trades }; next_id = suc w.next_id })

abbrev send_trade : TradeData → Action ⊤
send_trade t = modify λ w. record w { market_trades = w.market_trades ++ t ∷ [] }

abbrev is_limit_buy : OrderType → OrderSide → Bool
is_limit_buy limit buy = true
is_limit_buy limit sell = false
is_limit_buy market side = false

module _ (dec : Arithmetic) where
  -- `order.type === 'LIMIT' && side === 'BUY' && matchPrice.lt(priceDec)`
  unfoldable pub refund_improvement : Order → Fill → Action ⊤
  refund_improvement order f =
      let price = or_zero order.price in
      if is_limit_buy order.type order.side && ltb_ℤ f.price price
      then refund_buyer_price_improvement order.user_id (dec.times f.quantity (price -ℤ f.price))
      else pure tt

  -- one entry of `txOperations`
  unfoldable pub run_fill : Order → Fill → Action ⊤
  unfolding refund_improvement
  run_fill order f = do
    update_order order.id
        (λ o. record o { filled_quantity = f.order_filled; status = f.order_status })
    update_order f.counterparty.id
        λ o. record o { filled_quantity = f.counterparty_filled; status = f.counterparty_status }
    create_trade (trade_of order f)
    update_asset order.asset_id (λ a. record a { token_price = f.price })
    settle_match dec (buyer_of order.side order.user_id f.counterparty.user_id)
        (seller_of order.side order.user_id f.counterparty.user_id) order.asset_id f.quantity
        f.price
    refund_improvement order f

  unfoldable pub run_fills : Order → List Fill → Action ⊤
  unfolding run_fill
  run_fills order [] = pure tt
  run_fills order (f ∷ fs) = run_fill order f >> run_fills order fs

  -- the refund of what a market buy has locked and not spent
  refund_unused : Order → Option Decimal → Decimal → Action ⊤
  refund_unused order none spent = pure tt
  refund_unused order (some budget) spent =
      if ltb_ℤ (pos 0) (budget -ℤ spent)
      then refund_buyer_price_improvement order.user_id (budget -ℤ spent)
      else pure tt

  -- the release of the asset that a market sell has not sold
  release_unsold : Order → OrderSide → Decimal → Action ⊤
  release_unsold order buy remaining = pure tt
  release_unsold order sell remaining =
      unlock_order_remainder dec order.user_id sell order.asset_id remaining (pos 0)

  -- The last operation: a market order that is not filled is cancelled.
  unfoldable pub close_market : OrderType → Order → Option Decimal → Decimal → Decimal → Action ⊤
  unfolding refund_unused release_unsold
  close_market limit order budget remaining spent = pure tt
  close_market market order budget remaining spent =
      if ltb_ℤ (pos 0) remaining
      then (do
        update_order order.id (λ o. record o { status = cancelled })
        refund_unused order budget spent
        release_unsold order order.side remaining)
      else refund_unused order budget spent

  -- `maxTotalCost`
  abbrev pub order_budget : Order → Option Decimal
  order_budget order = budget_of dec order.type order.side order.quantity (or_zero order.price)

  unfoldable pub plan_of : Order → List Order → Plan
  plan_of order rows =
      plan_fills dec order (order_budget order) (candidates order rows) order.quantity
        order.filled_quantity (pos 0)

  -- the `$transaction` at the end
  unfoldable pub write_plan : Order → Plan → Action ⊤
  unfolding run_fills close_market
  write_plan order plan = do
    run_fills order plan.fills
    close_market order.type order (order_budget order) plan.remaining plan.total_spent

  -- `recordTrade` of the market data service, for each trade
  record_trades : Order → List Fill → Action ⊤
  record_trades order [] = pure tt
  record_trades order (f ∷ fs) = send_trade (trade_of order f) >> record_trades order fs

  unfoldable pub match_open : Order → Action ℕ
  unfolding plan_of write_plan record_trades
  match_open order = do
    rows ← gets (λ w. w.orders)
    let plan = plan_of order rows
    transaction (write_plan order plan)
    record_trades order plan.fills
    pure (length plan.fills)

  match_found : Option Order → Action ℕ
  unfolding match_open
  match_found none = pure 0
  match_found (some order) = if is_open order.status then match_open order else pure 0

  -- `matchOrder`, with the number of trades as its result
  unfoldable pub match_order : ℕ → Action ℕ
  unfolding match_found
  match_order order_id = do found ← gets (λ w. find_order order_id w.orders); match_found found

-- ===== src/Matching/Conserves.antt =====
-- `matchOrder` conserves every currency and overdraws no wallet.
use prop_x_exchange.Prelude.{ℕ, refl, Option, none, some, List, [], ◌∷◌}
use prop_x_exchange.Tables.Settling.{TradeData}
use prop_x_exchange.Exec.Ensures.{Ensures}
use prop_x_exchange.Exchange.{
  Decimal, Arithmetic, OrderSide, buy, sell, OrderType, market, limit, Order, World,
}
use prop_x_exchange.Balances.Atomic.{
  IsAtomic, NeverRaises, NeverRaises-IsAtomic, pure-NeverRaises, modify-NeverRaises, if-IsAtomic,
  atomic_rules,
}
use prop_x_exchange.Ledger.Conserves.{
  Conserves, Conserves-IsPreorder, conserving_rules, aside-Conserves, always_conserves,
}
use prop_x_exchange.Orders.Data.{is_open}
use prop_x_exchange.Orders.Updates.{update_order-Conserves, update_asset-Conserves}
use prop_x_exchange.Matching.Loop.{Fill, Plan}
use prop_x_exchange.Matching.{
  refund_improvement, run_fill, run_fills, refund_unused, release_unsold, close_market, write_plan,
  record_trades, match_open, match_found, match_order, create_trade, send_trade, trade_of,
}

create_trade-Conserves : (t : TradeData) → Ensures Conserves (create_trade t)
unfolding create_trade
create_trade-Conserves t = aside-Conserves (create_trade t) (λ w. refl)

send_trade-NeverRaises : (t : TradeData) → NeverRaises (send_trade t)
send_trade-NeverRaises t = modify-NeverRaises _

send_trade-Conserves : (t : TradeData) → Ensures Conserves (send_trade t)
send_trade-Conserves t = aside-Conserves (send_trade t) (λ w. refl)

module _ (dec : Arithmetic) (order : Order) where
  refund_improvement-Conserves : (f : Fill) → Ensures Conserves (refund_improvement dec order f)
  unfolding refund_improvement
  refund_improvement-Conserves f = search conserving_rules

  run_fill-Conserves : (f : Fill) → Ensures Conserves (run_fill dec order f)
  unfolding run_fill
  run_fill-Conserves f =
      search
        (
          conserving_rules, update_order-Conserves, update_asset-Conserves, create_trade-Conserves,
          refund_improvement-Conserves,
        )
        depth 8

  run_fills-Conserves : (fs : List Fill) → Ensures Conserves (run_fills dec order fs)
  unfolding run_fills
  run_fills-Conserves [] = search conserving_rules
  run_fills-Conserves (f ∷ fs) =
      search (conserving_rules, run_fill-Conserves f, run_fills-Conserves fs)

  refund_unused-Conserves :
      (budget : Option Decimal) (spent : Decimal)
      → Ensures Conserves (refund_unused dec order budget spent)
  unfolding refund_unused
  refund_unused-Conserves none spent = search conserving_rules
  refund_unused-Conserves (some b) spent = search conserving_rules

  release_unsold-Conserves :
      (side : OrderSide) (x : Decimal) → Ensures Conserves (release_unsold dec order side x)
  unfolding release_unsold
  release_unsold-Conserves buy x = search conserving_rules
  release_unsold-Conserves sell x = search conserving_rules

  close_market-Conserves :
      (type : OrderType) (budget : Option Decimal) (remaining spent : Decimal)
      → Ensures Conserves (close_market dec type order budget remaining spent)
  unfolding close_market
  close_market-Conserves limit budget remaining spent = search conserving_rules
  close_market-Conserves market budget remaining spent =
      search (
        conserving_rules, update_order-Conserves, refund_unused-Conserves, release_unsold-Conserves,
      )

  write_plan-Conserves : (plan : Plan) → Ensures Conserves (write_plan dec order plan)
  unfolding write_plan
  write_plan-Conserves plan = search (conserving_rules, run_fills-Conserves, close_market-Conserves)

  record_trades-Conserves : (fs : List Fill) → Ensures Conserves (record_trades dec order fs)
  unfolding record_trades
  record_trades-Conserves [] = search conserving_rules
  record_trades-Conserves (f ∷ fs) =
      search (conserving_rules, send_trade-Conserves (trade_of order f), record_trades-Conserves fs)

  record_trades-NeverRaises : (fs : List Fill) → NeverRaises (record_trades dec order fs)
  unfolding record_trades
  record_trades-NeverRaises [] = search atomic_rules
  record_trades-NeverRaises (f ∷ fs) =
      search (atomic_rules, send_trade-NeverRaises (trade_of order f), record_trades-NeverRaises fs)

  match_open-IsAtomic : IsAtomic (match_open dec order)
  unfolding match_open
  match_open-IsAtomic = search (atomic_rules, record_trades-NeverRaises) depth 8

  match_open-Conserves : Ensures Conserves (match_open dec order)
  unfolding match_open
  match_open-Conserves = search (conserving_rules, write_plan-Conserves, record_trades-Conserves)

module _ (dec : Arithmetic) where
  match_found-Conserves : (found : Option Order) → Ensures Conserves (match_found dec found)
  unfolding match_found
  match_found-Conserves none = search conserving_rules
  match_found-Conserves (some order) = search (conserving_rules, match_open-Conserves)

  match_found-IsAtomic : (found : Option Order) → IsAtomic (match_found dec found)
  unfolding match_found
  match_found-IsAtomic none = NeverRaises-IsAtomic _ (pure-NeverRaises 0)
  match_found-IsAtomic (some order) =
      if-IsAtomic (is_open order.status) _ _ (match_open-IsAtomic dec order)
        (NeverRaises-IsAtomic _ (pure-NeverRaises 0))

  pub match_order-Ensures : (id : ℕ) → Ensures Conserves (match_order dec id)
  unfolding match_order
  match_order-Ensures id = search (conserving_rules, match_found-Conserves)

  pub match_order-IsAtomic : (id : ℕ) → IsAtomic (match_order dec id)
  unfolding match_order
  match_order-IsAtomic id = search (atomic_rules, match_found-IsAtomic)

  -- Whatever the order and whatever fails on the way, `matchOrder` leaves the total of every
  -- currency as it was and a solvent table solvent.
  pub match_order-Conserves : (id : ℕ) (w : World) → Conserves w (match_order dec id w).1
  match_order-Conserves id w =
      always_conserves (match_order dec id) (match_order-Ensures id) (match_order-IsAtomic id) w

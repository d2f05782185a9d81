-- ===== src/Matching/Loop.antt =====
-- The loop of `matchOrder` over the counterparties (order-matching.service.ts): it decides the
-- fills, which a transaction writes afterwards.
use prop_x_exchange.Prelude.{Option, none, some, List, [], ◌∷◌, if◌then◌else◌}
use prop_x_exchange.Prelude.Int.{pos, ◌+ℤ◌, ◌-ℤ◌, leb_ℤ, ltb_ℤ, eqb_ℤ, min_ℤ}
use prop_x_exchange.Exchange.{
  Decimal, Arithmetic, OrderSide, buy, sell, OrderType, market, limit, OrderStatus, filled,
  partially_filled, Order,
}
use prop_x_exchange.Orders.Data.{or_zero}

-- One turn: leave the loop, pass over the counterparty, or match a quantity with it.
pub data Turn : Type 0 where
  stop : Turn
  skip : Turn
  take : Decimal → Turn

-- What one turn adds to `txOperations`.
pub record Fill : Type 0 where
  pub counterparty : Order
  pub quantity : Decimal
  pub price : Decimal
  pub order_filled : Decimal
  pub order_status : OrderStatus
  pub counterparty_filled : Decimal
  pub counterparty_status : OrderStatus

-- What the loop leaves behind.
pub record Plan : Type 0 where
  pub fills : List Fill
  pub remaining : Decimal
  pub total_spent : Decimal

-- `matchingOrder.quantity - matchingOrder.filledQuantity`
abbrev pub open_quantity : Order → Decimal
open_quantity o = o.quantity -ℤ o.filled_quantity

abbrev pub status_after : Decimal → Decimal → OrderStatus
status_after done quantity = if eqb_ℤ done quantity then filled else partially_filled

module _ (dec : Arithmetic) where
  -- `maxTotalCost` of a market buy
  abbrev pub budget_of : OrderType → OrderSide → Decimal → Decimal → Option Decimal
  budget_of market buy quantity price = some (dec.times quantity price)
  budget_of market sell quantity price = none
  budget_of limit side quantity price = none

  -- The quantity that the budget of a market buy still pays for.
  unfoldable pub within_budget : Option Decimal → Decimal → Decimal → Decimal → Turn
  within_budget none spent matchable price = take matchable
  within_budget (some budget) spent matchable price =
      if ltb_ℤ budget (spent +ℤ dec.times matchable price)
      then (let rest = dec.div (budget -ℤ spent) price in
          if leb_ℤ rest (pos 0) then stop else take rest)
      else take matchable

  unfoldable pub turn : Option Decimal → Order → Decimal → Decimal → Turn
  unfolding within_budget
  turn budget o remaining spent =
      if eqb_ℤ remaining (pos 0)
      then stop
      else if leb_ℤ (open_quantity o) (pos 0)
      then skip
      else within_budget budget spent (min_ℤ remaining (open_quantity o)) (or_zero o.price)

  abbrev pub fill_of : Order → Order → Decimal → Decimal → Fill
  fill_of order o done x = record {
    counterparty = o;
    quantity = x;
    price = or_zero o.price;
    order_filled = done +ℤ x;
    order_status = status_after (done +ℤ x) order.quantity;
    counterparty_filled = o.filled_quantity +ℤ x;
    counterparty_status = status_after (o.filled_quantity +ℤ x) o.quantity;
  }

  abbrev pub spend : Option Decimal → Decimal → Decimal → Decimal → Decimal
  spend none spent x price = spent
  spend (some budget) spent x price = spent +ℤ dec.times x price

  -- `remainingQuantity`, `currentOrderFilled` and `totalSpent` are the last three arguments.
  unfoldable pub plan_fills :
      Order → Option Decimal → List Order → Decimal → Decimal → Decimal → Plan
  plan_fills order budget [] remaining done spent = record {
    fills = [];
    remaining = remaining;
    total_spent = spent;
  }
  plan_fills order budget (o ∷ os) remaining done spent = elim (turn budget o remaining spent) [
    | stop ↦ record { fills = []; remaining = remaining; total_spent = spent }
    | skip ↦ plan_fills order budget os remaining done spent
    | take x ↦
        let rest =
          plan_fills order budget os (remaining -ℤ x) (done +ℤ x)
            (spend budget spent x (or_zero o.price)) in
        record rest { fills = fill_of order o done x ∷ rest.fills }
  ]

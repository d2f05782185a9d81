-- ===== src/Orders/Repricing.antt =====
-- `updateOrder` of orders.service.ts with a new price: which wallets it changes.
use prop_x_exchange.Prelude.{ℕ, ◌≡◌, refl, ◌∙◌, false, Option, none, some, arith}
use prop_x_exchange.Exec.{ok}
use prop_x_exchange.Exec.Ensures.{Ensures, IsPreorder, ensures_rules}
use prop_x_exchange.Exchange.{Decimal, Arithmetic, Order, World}
use prop_x_exchange.Orders.Table.{update_order}
use prop_x_exchange.Orders.Data.{UpdateOrder, UpdateReply}
use prop_x_exchange.Orders.Create.{validate_price_band}
use prop_x_exchange.Orders.Change.{change_price, cancel_or_change, update_order_request}

record SameBalances (w w' : World) : Type 0 where
  same : w'.balances ≡ w.balances

instance SameBalances-IsPreorder : IsPreorder SameBalances
SameBalances-IsPreorder = record {
  reflexive = λ w. record { same = refl };
  transitive = λ u v w h k. record { same = k.same ∙ h.same };
}

-- Of the writes of a repricing, none is to the wallets.
update_order-SameBalances : (id : ℕ) (f : Order → Order) → Ensures SameBalances (update_order id f)
update_order-SameBalances id f = record {
  at = λ w w' a h. record { same = unfold update_order in ground arith };
}

band-SameBalances :
    (dec : Arithmetic) (p : Decimal) (r b : Option Decimal)
    → Ensures SameBalances (validate_price_band dec p r b)
unfolding validate_price_band
band-SameBalances dec p none b = search ensures_rules
band-SameBalances dec p (some r) b = search ensures_rules

change_price-SameBalances :
    (dec : Arithmetic) (id : ℕ) (dto : UpdateOrder) (o : Order)
    → Ensures SameBalances (change_price dec id dto o)
unfolding change_price
change_price-SameBalances dec id dto o =
    search (ensures_rules, update_order-SameBalances, band-SameBalances) depth 14

kept_or_changed-SameBalances :
    (dec : Arithmetic) (u id : ℕ) (dto : UpdateOrder) (o : Order)
    → dto.cancel ≡ false
    → Ensures SameBalances (cancel_or_change dec dto.cancel u id dto o)
kept_or_changed-SameBalances dec u id dto o no_cancel =
    rw no_cancel (unfold cancel_or_change in change_price-SameBalances dec id dto o)

request-SameBalances :
    (dec : Arithmetic) (u id : ℕ) (dto : UpdateOrder)
    → dto.cancel ≡ false
    → Ensures SameBalances (update_order_request dec u id dto)
unfolding update_order_request
request-SameBalances dec u id dto no_cancel =
    let changed = λ (o : Order). kept_or_changed-SameBalances dec u id dto o no_cancel in
    search (ensures_rules, changed) depth 14

-- A request to update an order that does not cancel it and is answered leaves every wallet as it
-- was, so that a new price moves no funds.
pub repricing-balances :
    (dec : Arithmetic) (u id : ℕ) (dto : UpdateOrder) (w w' : World) (r : UpdateReply)
    → dto.cancel ≡ false
    → update_order_request dec u id dto w ≡ (ok r, w')
    → w'.balances ≡ w.balances
repricing-balances dec u id dto w w' r no_cancel h =
    ((request-SameBalances dec u id dto no_cancel).at w w' r h).same

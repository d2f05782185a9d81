-- ===== src/Orders/Conserves.antt =====
-- The methods of orders.service.ts conserve every currency, overdraw no wallet, and leave the
-- database alone when they raise.
use prop_x_exchange.Prelude.{ℕ, refl, ap, Bool, true, false, Option, none, some}
use prop_x_exchange.Exec.Ensures.{Ensures}
use prop_x_exchange.Exec.Always.{Always, always_rules}
use prop_x_exchange.Balances.{transaction}
use prop_x_exchange.Ledger.{lock_order_funds}
use prop_x_exchange.Exchange.{
  Decimal, Arithmetic, OrderSide, buy, sell, OrderType, market, limit, Order, Asset, Action,
}
use prop_x_exchange.Balances.Atomic.{IsAtomic, IsRead, atomic_rules}
use prop_x_exchange.Ledger.Conserves.{
  Conserves, Conserves-IsPreorder, conserving_rules, aside-Conserves, same_balances,
  always_conserves,
}
use prop_x_exchange.Orders.Updates.{update_order-Conserves, update_order-IsAtomic}
use prop_x_exchange.Orders.Data.{CreateOrder, UpdateOrder}
use prop_x_exchange.Orders.Create.{
  Faults, validate_price_band, price_of_order, insert_order, queue_order, answer_or_place,
  place_order, create_order,
}
use prop_x_exchange.Orders.Change.{
  cancel_writes, cancel_order, change_price, cancel_or_change, update_order_request,
}

insert_order-Always :
    (b : Bool) (u : ℕ) (dto : CreateOrder) (p : Decimal) → Always Conserves (insert_order b u dto p)
insert_order-Always true u dto p = record {
  at = λ w. unfold insert_order in Conserves-IsPreorder.reflexive w;
}
insert_order-Always false u dto p = record {
  at = λ w. same_balances w _ (unfold insert_order in refl);
}

queue_order-Always : (b : Bool) (id : ℕ) → Always Conserves (queue_order b id)
queue_order-Always true id = record { at = λ w. Conserves-IsPreorder.reflexive w }
queue_order-Always false id = record { at = λ w. same_balances w _ refl }

read-Conserves : {A : Type 0} (m : Action A) → IsRead m → Ensures Conserves m
read-Conserves m r = aside-Conserves m (λ w. rw (r.unchanged w))

module _ (dec : Arithmetic) where
  validate_price_band-IsRead :
      (p : Decimal) (r b : Option Decimal) → IsRead (validate_price_band dec p r b)
  unfolding validate_price_band
  validate_price_band-IsRead p none b = search atomic_rules
  validate_price_band-IsRead p (some r) b = search atomic_rules

  price_of_order-IsRead :
      (type : OrderType) (side : OrderSide) (dto : CreateOrder) (asset : Asset)
      → IsRead (price_of_order dec type side dto asset)
  unfolding price_of_order
  price_of_order-IsRead market buy dto asset = search atomic_rules
  price_of_order-IsRead market sell dto asset = search atomic_rules
  price_of_order-IsRead limit side dto asset = search (atomic_rules, validate_price_band-IsRead)

  price_of_order-Conserves :
      (type : OrderType) (side : OrderSide) (dto : CreateOrder) (asset : Asset)
      → Ensures Conserves (price_of_order dec type side dto asset)
  price_of_order-Conserves type side dto asset =
      read-Conserves _ (price_of_order-IsRead type side dto asset)

  price_of_order-Always :
      (type : OrderType) (side : OrderSide) (dto : CreateOrder) (asset : Asset)
      → Always Conserves (price_of_order dec type side dto asset)
  price_of_order-Always type side dto asset = record {
    at = λ w.
        same_balances w _
          (ap (λ v. v.balances) ((price_of_order-IsRead type side dto asset).unchanged w));
  }

  locked-Always :
      (u : ℕ) (side : OrderSide) (a : ℕ) (q p : Decimal)
      → Always Conserves (transaction (lock_order_funds dec u side a q p))
  locked-Always u side a q p = record {
    at =
        always_conserves (transaction (lock_order_funds dec u side a q p)) (search conserving_rules)
          (search atomic_rules);
  }

  place_order-Always :
      (f : Faults) (u : ℕ) (dto : CreateOrder) → Always Conserves (place_order dec f u dto)
  unfolding place_order
  place_order-Always f u dto =
      search
        (
          always_rules, price_of_order-Always, locked-Always, insert_order-Always,
          queue_order-Always,
        )
        depth 12

  pub cancel_order-IsAtomic : (u id : ℕ) → IsAtomic (cancel_order dec u id)
  unfolding cancel_order
  cancel_order-IsAtomic u id = search atomic_rules depth 8

  cancel_writes-Conserves : (u : ℕ) (order : Order) → Ensures Conserves (cancel_writes dec u order)
  unfolding cancel_writes
  cancel_writes-Conserves u order = search (conserving_rules, update_order-Conserves)

  pub cancel_order-Ensures : (u id : ℕ) → Ensures Conserves (cancel_order dec u id)
  unfolding cancel_order
  cancel_order-Ensures u id = search (conserving_rules, cancel_writes-Conserves) depth 8

  answer_or_place-Always :
      (f : Faults) (u : ℕ) (dto : CreateOrder) (found : Option Order)
      → Always Conserves (answer_or_place dec f u dto found)
  unfolding answer_or_place
  answer_or_place-Always f u dto none = place_order-Always f u dto
  answer_or_place-Always f u dto (some order) = search always_rules

  pub create_order-Always :
      (f : Faults) (u : ℕ) (dto : CreateOrder) → Always Conserves (create_order dec f u dto)
  unfolding create_order
  create_order-Always f u dto = search (always_rules, answer_or_place-Always)

  validate_price_band-Conserves :
      (p : Decimal) (r b : Option Decimal) → Ensures Conserves (validate_price_band dec p r b)
  validate_price_band-Conserves p r b = read-Conserves _ (validate_price_band-IsRead p r b)

  change_price-IsAtomic :
      (id : ℕ) (dto : UpdateOrder) (order : Order) → IsAtomic (change_price dec id dto order)
  unfolding change_price
  change_price-IsAtomic id dto order =
      search (atomic_rules, validate_price_band-IsRead, update_order-IsAtomic) depth 14

  change_price-Conserves :
      (id : ℕ) (dto : UpdateOrder) (order : Order)
      → Ensures Conserves (change_price dec id dto order)
  unfolding change_price
  change_price-Conserves id dto order =
      search (conserving_rules, validate_price_band-Conserves, update_order-Conserves) depth 14

  cancel_or_change-IsAtomic :
      (c : Bool) (u id : ℕ) (dto : UpdateOrder) (order : Order)
      → IsAtomic (cancel_or_change dec c u id dto order)
  unfolding cancel_or_change
  cancel_or_change-IsAtomic true u id dto order = search (atomic_rules, cancel_order-IsAtomic)
  cancel_or_change-IsAtomic false u id dto order = change_price-IsAtomic id dto order

  cancel_or_change-Conserves :
      (c : Bool) (u id : ℕ) (dto : UpdateOrder) (order : Order)
      → Ensures Conserves (cancel_or_change dec c u id dto order)
  unfolding cancel_or_change
  cancel_or_change-Conserves true u id dto order = search (conserving_rules, cancel_order-Ensures)
  cancel_or_change-Conserves false u id dto order = change_price-Conserves id dto order

  pub update_order_request-IsAtomic :
      (u id : ℕ) (dto : UpdateOrder) → IsAtomic (update_order_request dec u id dto)
  unfolding update_order_request
  update_order_request-IsAtomic u id dto = search (atomic_rules, cancel_or_change-IsAtomic) depth 8

  pub update_order_request-Ensures :
      (u id : ℕ) (dto : UpdateOrder) → Ensures Conserves (update_order_request dec u id dto)
  unfolding update_order_request
  update_order_request-Ensures u id dto =
      search (conserving_rules, cancel_or_change-Conserves) depth 8

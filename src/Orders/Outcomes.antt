-- ===== src/Orders/Outcomes.antt =====
-- What the methods of orders.service.ts do when they return.
use prop_x_exchange.Prelude.{
  ℕ, ◌≡◌, refl, sym, ap, ◌∙◌, Option, none, some, List, [], ◌∷◌, ◌+◌, ◌≤◌, suc, map, arith,
}
use mathlib.Core.Path.{ap₂}
use prop_x_exchange.Prelude.Int.{pos, ◌-ℤ◌}
use prop_x_exchange.Exec.{ok, pure, >>=-eq-ok}
use prop_x_exchange.Exchange.{Decimal, Arithmetic, OrderSide, buy, sell, World}
use prop_x_exchange.Balances.{
  available_to_locked, locked_to_available, transfer_between_available_and_locked,
}
use prop_x_exchange.Balances.Effects.{Effect}
use prop_x_exchange.Balances.Outcomes.{transfer-Effect}
use prop_x_exchange.Ledger.{lock_order_funds, unlock_leg}
use prop_x_exchange.Orders.Data.{CancelResult, count_successes, length}
use prop_x_exchange.Orders.Change.{cancel_result, cancel_each, bulk_cancel_orders}

-- The currency that an order locks, and how much of it for a quantity.
abbrev pub leg_of : OrderSide → ℕ → Option ℕ
leg_of buy asset = none
leg_of sell asset = some asset

abbrev pub leg_amount : Arithmetic → OrderSide → Decimal → Decimal → Decimal
leg_amount dec buy quantity price = dec.times quantity price
leg_amount dec sell quantity price = quantity

module _ (dec : Arithmetic) (u : ℕ) where
  -- A lock of the funds of an order that returns moves what the order needs from the available
  -- to the locked column of one wallet, the cash for a purchase and the asset for a sale, and
  -- changes no other.
  pub lock-Effect :
      (side : OrderSide) (a : ℕ) (q p : Decimal) (w w' : World)
      → lock_order_funds dec u side a q p w ≡ (ok tt, w')
      → let x = leg_amount dec side q p in
        Effect u (leg_of side a) (pos 0 -ℤ x) x w.balances w'.balances
  unfolding lock_order_funds
  lock-Effect buy a q p w w' h =
      let (n, w1, e, k) =
        >>=-eq-ok (transfer_between_available_and_locked u none (dec.times q p) available_to_locked)
          (λ _. pure tt) w h in
      let same : w1 ≡ w' = cc in
      rw same at (transfer-Effect u none (dec.times q p) available_to_locked w w1 e)
  lock-Effect sell a q p w w' h =
      let (n, w1, e, k) =
        >>=-eq-ok (transfer_between_available_and_locked u (some a) q available_to_locked)
          (λ _. pure tt) w h in
      let same : w1 ≡ w' = cc in
      rw same at (transfer-Effect u (some a) q available_to_locked w w1 e)

  -- Releasing a remainder moves it back.
  pub unlock-Effect :
      (side : OrderSide) (a : ℕ) (q p : Decimal) (w w' : World)
      → unlock_leg dec u side a q p w ≡ (ok tt, w')
      → let x = leg_amount dec side q p in
        Effect u (leg_of side a) (pos 0 -ℤ (pos 0 -ℤ x)) (pos 0 -ℤ x) w.balances w'.balances
  unfolding unlock_leg
  unlock-Effect buy a q p w w' h =
      let (n, w1, e, k) =
        >>=-eq-ok (transfer_between_available_and_locked u none (dec.times q p) locked_to_available)
          (λ _. pure tt) w h in
      let same : w1 ≡ w' = cc in
      rw same at (transfer-Effect u none (dec.times q p) locked_to_available w w1 e)
  unlock-Effect sell a q p w w' h =
      let (n, w1, e, k) =
        >>=-eq-ok (transfer_between_available_and_locked u (some a) q locked_to_available)
          (λ _. pure tt) w h in
      let same : w1 ≡ w' = cc in
      rw same at (transfer-Effect u (some a) q locked_to_available w w1 e)

result-order_id :
    (dec : Arithmetic) (u id : ℕ) (w : World) → (cancel_result dec u id w).0.order_id ≡ id
unfolding cancel_result
result-order_id dec u id w = ground arith

results_in_order :
    (dec : Arithmetic) (u : ℕ) (ids : List ℕ) (w : World)
    → map (λ r. r.order_id) (cancel_each dec u ids w).0 ≡ ids
results_in_order dec u [] w = unfold cancel_each in refl
results_in_order dec u (id ∷ ids) w =
    let here = result-order_id dec u id w in
    let later = results_in_order dec u ids (cancel_result dec u id w).1 in go here later
  where
    go :
        (cancel_result dec u id w).0.order_id ≡ id
        → map (λ r. r.order_id) (cancel_each dec u ids (cancel_result dec u id w).1).0 ≡ ids
        → map (λ r. r.order_id) (cancel_each dec u (id ∷ ids) w).0 ≡ id ∷ ids
    go here later = unfold cancel_each in ap₂ ◌∷◌ here later

successes-le : (rs : List CancelResult) → count_successes rs ≤ length rs
successes-le [] = omega arith
successes-le (r ∷ rs) = ground (arith, successes-le rs)

length-map : (rs : List CancelResult) → length (map (λ r. r.order_id) rs) ≡ length rs
length-map [] = refl
length-map (r ∷ rs) = ap suc (length-map rs)

-- A bulk cancellation answers every id, in the order of the request, and its counts of successes
-- and of errors add up to the number of ids.
pub bulk_cancel_answers :
    (dec : Arithmetic) (u : ℕ) (ids : List ℕ) (w : World)
    → let reply = (bulk_cancel_orders dec u ids w).0 in
      (map (λ r. r.order_id) reply.results ≡ ids)
      × (reply.total ≡ length ids)
      × (reply.success_count ≡ count_successes reply.results)
      × (reply.success_count + reply.error_count ≡ length ids)
unfolding bulk_cancel_orders
bulk_cancel_answers dec u ids w =
    let rs = (cancel_each dec u ids w).0 in
    let order = results_in_order dec u ids w in
    let total : length rs ≡ length ids = sym (length-map rs) ∙ ap length order in
    (order, total, refl, omega (arith, successes-le rs))

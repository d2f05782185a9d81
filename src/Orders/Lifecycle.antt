-- ===== src/Orders/Lifecycle.antt =====
-- `cancelOrder` of orders.service.ts: an order is cancelled once, and what it has left is released.
use prop_x_exchange.Prelude.{
  ℕ, ◌≡◌, ◌⊎◌, inl, inr, Bool-cases, true, false, Option, none, some, Option-cases, arith, ◌==◌,
  ==_iff,
}
use prop_x_exchange.Prelude.Int.{pos, ◌-ℤ◌, leb_ℤ}
use prop_x_exchange.Errors.{order_not_cancellable}
use prop_x_exchange.Exec.{ok, err, pure, >>=-eq-ok}
use prop_x_exchange.Exchange.{
  Decimal, Arithmetic, OrderSide, buy, sell, cancelled, Order, Balance, World,
}
use prop_x_exchange.Balances.{
  transaction, Direction, locked_to_available, transfer_between_available_and_locked,
}
use prop_x_exchange.Balances.Outcomes.{transfer_tests, transfer_run}
use prop_x_exchange.Balances.Effects.{Effect}
use prop_x_exchange.Ledger.{unlock_leg, unlock_order_remainder}
use prop_x_exchange.Orders.Table.{
  find_order, put_order, update_order, find-put_order, find_order-id,
}
use prop_x_exchange.Orders.Data.{or_zero, is_cancellable}
use prop_x_exchange.Orders.Change.{cancel_writes, cancel_order}
use prop_x_exchange.Orders.Outcomes.{leg_of, leg_amount, unlock-Effect}

-- A transfer between the columns of a wallet leaves the order table alone.
transfer-orders :
    (u : ℕ) (a : Option ℕ) (x : Decimal) (d : Direction) (w w' : World) {n : Balance}
    → transfer_between_available_and_locked u a x d w ≡ (ok n, w')
    → w'.orders ≡ w.orders
transfer-orders u a x d w w' {n} h =
    let (r, positive, found, e) = transfer_tests u a x d w w' h in
    let run = transfer_run u a x d w r n positive found e in cc

unlock_leg-orders :
    (dec : Arithmetic) (u : ℕ) (side : OrderSide) (a : ℕ) (q p : Decimal) (w w' : World)
    → unlock_leg dec u side a q p w ≡ (ok tt, w')
    → w'.orders ≡ w.orders
unfolding unlock_leg
unlock_leg-orders dec u buy a q p w w' h =
    let (n, w1, e, k) =
      >>=-eq-ok (transfer_between_available_and_locked u none (dec.times q p) locked_to_available)
        (λ _. pure tt) w h in
    let same = transfer-orders u none (dec.times q p) locked_to_available w w1 e in cc
unlock_leg-orders dec u sell a q p w w' h =
    let (n, w1, e, k) =
      >>=-eq-ok (transfer_between_available_and_locked u (some a) q locked_to_available)
        (λ _. pure tt) w h in
    let same = transfer-orders u (some a) q locked_to_available w w1 e in cc

unlock-orders :
    (dec : Arithmetic) (u : ℕ) (side : OrderSide) (a : ℕ) (q p : Decimal) (w w' : World)
    → unlock_order_remainder dec u side a q p w ≡ (ok tt, w')
    → w'.orders ≡ w.orders
unfolding unlock_order_remainder
unlock-orders dec u side a q p w w' h = ground (arith, unlock_leg-orders dec u side a q p w w')

abbrev with_order : Order → World → World
with_order n w = record w { db = record w.db { orders = put_order n w.orders } }

module _ (dec : Arithmetic) (u id : ℕ) (w : World) where
  -- A cancellation that returns has passed its tests.
  cancel_tests :
      (w' : World)
      → cancel_order dec u id w ≡ (ok tt, w')
      → (o : Order) × (find_order id w.orders ≡ some o)
        × ((o.user_id == u) ≡ true)
        × (is_cancellable o.status ≡ true)
        × (cancel_writes dec u o w ≡ (ok tt, w'))
  cancel_tests w' h = elim (Option-cases (find_order id w.orders)) [
    | inl e ↦ unfold cancel_order in absurd (ground arith)
    | inr (o, e) ↦ (
      o,
      e,
      unfold cancel_order in ground arith,
      unfold cancel_order in ground arith,
      unfold cancel_order transaction in ground arith,
    )
  ]

  cancel_writes_steps :
      (o : Order) (w' : World)
      → find_order o.id w.orders ≡ some o
      → cancel_writes dec u o w ≡ (ok tt, w')
      → unlock_order_remainder dec u o.side o.asset_id
          (o.quantity -ℤ o.filled_quantity)
          (or_zero o.price)
          (with_order (record o { status = cancelled }) w)
        ≡ (ok tt, w')
  unfolding cancel_writes update_order
  cancel_writes_steps o w' e h = ground arith

  -- What a cancellation does to the wallets: what the order had not filled is released, if any.
  abbrev pub Released : Order → World → Type 0
  Released o w' =
      let remaining = o.quantity -ℤ o.filled_quantity in
      let x = leg_amount dec o.side remaining (or_zero o.price) in
      ((leb_ℤ remaining (pos 0) ≡ true) × (w'.balances ≡ w.balances))
      ⊎ ((leb_ℤ remaining (pos 0) ≡ false)
          × Effect u (leg_of o.side o.asset_id) (pos 0 -ℤ (pos 0 -ℤ x)) (pos 0 -ℤ x) w.balances
              w'.balances)

  released :
      (o : Order) (w' : World)
      → unlock_order_remainder dec u o.side o.asset_id
          (o.quantity -ℤ o.filled_quantity)
          (or_zero o.price)
          (with_order (record o { status = cancelled }) w)
        ≡ (ok tt, w')
      → Released o w'
  unfolding unlock_order_remainder
  released o w' h = elim (Bool-cases (leb_ℤ (o.quantity -ℤ o.filled_quantity) (pos 0))) [
    | inl e ↦ inl (e, ground arith)
    | inr e ↦ inr (
      e,
      unlock-Effect dec u o.side o.asset_id (o.quantity -ℤ o.filled_quantity) (or_zero o.price)
          (with_order (record o { status = cancelled }) w) w' (ground arith),
    )
  ]

  now_cancelled :
      (o : Order) (w' : World)
      → o.id ≡ id
      → find_order o.id w.orders ≡ some o
      → w'.orders ≡ put_order (record o { status = cancelled }) w.orders
      → find_order id w'.orders ≡ some (record o { status = cancelled })
  now_cancelled o w' same found rows =
      let e = find-put_order (record o { status = cancelled }) o w.orders id found in ground (arith)

  -- A cancellation that returns was of an own order that was still cancellable; the order is now
  -- cancelled, and exactly what it had not filled is released, if there was any.
  pub cancel_order_lem :
      (w' : World)
      → cancel_order dec u id w ≡ (ok tt, w')
      → (o : Order) × (find_order id w.orders ≡ some o)
        × (o.user_id ≡ u)
        × (is_cancellable o.status ≡ true)
        × (find_order id w'.orders ≡ some (record o { status = cancelled }))
        × Released o w'
  cancel_order_lem w' h =
      let (o, found, own, able, writes) = cancel_tests w' h in
      let same_id : o.id ≡ id = find_order-id id o w.orders found in
      let found' : find_order o.id w.orders ≡ some o = rw same_id found in
      let steps = cancel_writes_steps o w' found' writes in
      let rows =
        unlock-orders dec u o.side o.asset_id (o.quantity -ℤ o.filled_quantity) (or_zero o.price)
          (with_order (record o { status = cancelled }) w) w' steps in
      (
        o,
        found,
        (==_iff o.user_id u).0 own,
        able,
        now_cancelled o w' same_id found' rows,
        released o w' steps,
      )

module _ (dec : Arithmetic) (u id : ℕ) where
  -- An order that was cancelled is not cancelled again: the second request is refused, and changes nothing.
  pub cancel_once :
      (w w' : World)
      → cancel_order dec u id w ≡ (ok tt, w')
      → cancel_order dec u id w' ≡ (err order_not_cancellable, w')
  cancel_once w w' h =
      let (o, found, own, able, now, _) = cancel_order_lem dec u id w w' h in
      unfold cancel_order in ground (arith)

-- ===== src/Orders/Idempotent.antt =====
-- The idempotency key of `createOrder` (orders.service.ts): a request that is sent again.
use prop_x_exchange.Prelude.{
  Bool, true, false, ℕ, ◌≡◌, refl, inl, inr, not, ◌||◌, some, Option-cases, ◌∷◌, arith,
}
use prop_x_exchange.Errors.{asset_not_tradable}
use prop_x_exchange.Exec.{ok, pure, raise_if, raise_if-eq-ok, ◌>>=◌, ◌>>◌, >>=-eq-ok}
use prop_x_exchange.Exchange.{Decimal, Arithmetic, Asset, Order, World, Action}
use prop_x_exchange.Balances.{transaction}
use prop_x_exchange.Ledger.{lock_order_funds}
use prop_x_exchange.Orders.Table.{find_asset}
use prop_x_exchange.Orders.Data.{CreateOrder, OrderReply, is_trading_open, find_by_key}
use prop_x_exchange.Orders.Create.{
  Faults, create_order, place_order, insert_order, price_of_order, queue_order,
}

abbrev reply_of : Order → OrderReply
reply_of o = record { order_id = o.id; status = o.status }

module _ (dec : Arithmetic) (faults : Faults) (u : ℕ) (dto : CreateOrder) where
  queue_and_reply : Order → Action OrderReply
  queue_and_reply order = queue_order faults.at_queue order.id >> pure (reply_of order)

  -- the last steps of a placement
  finish : Decimal → Action OrderReply
  finish price =
      transaction (lock_order_funds dec u dto.side dto.asset_id dto.quantity price)
      >> (insert_order faults.at_insert u dto price >>= queue_and_reply)

  -- the steps of a placement once the asset is found
  place_for : Asset → Action OrderReply
  place_for asset =
      raise_if (not asset.is_active || not (is_trading_open asset.trading_status))
        asset_not_tradable
      >> (price_of_order dec dto.type dto.side dto asset >>= finish)

  inserted :
      (fails : Bool) (k : ℕ) (p : Decimal) (w w' : World) (o : Order)
      → dto.idempotency_key ≡ some k
      → insert_order fails u dto p w ≡ (ok o, w')
      → find_by_key k w'.orders ≡ some o
  inserted true k p w w' o key h = unfold insert_order in absurd (cc)
  inserted false k p w w' o key h =
      let row : w'.orders ≡ o ∷ w.orders = unfold insert_order in cc in
      let has_key : o.idempotency_key ≡ some k = unfold insert_order in cc in
      unfold find_by_key in rw (row, has_key) (ground arith)

  queued_at :
      (fails : Bool) (o : Order) (w w' : World) (r : OrderReply)
      → (queue_order fails o.id >> pure (reply_of o)) w ≡ (ok r, w')
      → (w'.orders ≡ w.orders) × (r ≡ reply_of o)
  queued_at true o w w' r h = absurd (cc)
  queued_at false o w w' r h = (cc, cc)

  queued :
      (o : Order) (w w' : World) (r : OrderReply)
      → queue_and_reply o w ≡ (ok r, w')
      → (w'.orders ≡ w.orders) × (r ≡ reply_of o)
  unfolding queue_and_reply
  queued o w w' r h = queued_at faults.at_queue o w w' r h

  finish_keyed :
      (k : ℕ) (p : Decimal) (w w' : World) (r : OrderReply)
      → dto.idempotency_key ≡ some k
      → finish p w ≡ (ok r, w')
      → (o : Order) × (find_by_key k w'.orders ≡ some o) × (r ≡ reply_of o)
  unfolding finish
  finish_keyed k p w w' r key h =
      let (_, w1, e, h1) =
        >>=-eq-ok (transaction (lock_order_funds dec u dto.side dto.asset_id dto.quantity p))
          (λ _. insert_order faults.at_insert u dto p >>= queue_and_reply) w h in
      let (o, w2, e2, h2) =
        >>=-eq-ok (insert_order faults.at_insert u dto p) queue_and_reply w1 h1 in
      let found = inserted faults.at_insert k p w1 w2 o key e2 in
      let (rows, reply) = queued o w2 w' r h2 in (o, rw rows found, reply)

  placed_for :
      (k : ℕ) (asset : Asset) (w w' : World) (r : OrderReply)
      → dto.idempotency_key ≡ some k
      → place_for asset w ≡ (ok r, w')
      → (o : Order) × (find_by_key k w'.orders ≡ some o) × (r ≡ reply_of o)
  unfolding place_for
  placed_for k asset w w' r key h =
      let price = price_of_order dec dto.type dto.side dto asset in
      let (_, h1) = raise_if-eq-ok _ _ (price >>= finish) w h in
      let (p, w1, e, h2) = >>=-eq-ok price finish w h1 in finish_keyed k p w1 w' r key h2

  placed_keyed :
      (k : ℕ) (w w' : World) (r : OrderReply)
      → dto.idempotency_key ≡ some k
      → place_order dec faults u dto w ≡ (ok r, w')
      → (o : Order) × (find_by_key k w'.orders ≡ some o) × (r ≡ reply_of o)
  placed_keyed k w w' r key h = elim (Option-cases (find_asset dto.asset_id w.assets)) [
    | inl e ↦ unfold place_order in absurd (ground arith)
    | inr (asset, e) ↦
        let rest : place_for asset w ≡ (ok r, w') =
          unfold place_order place_for finish queue_and_reply in rw (← h) (rw e refl) in
        placed_for k asset w w' r key rest
  ]

  -- A request for an order that carries a key and is answered, sent again, gets the same answer
  -- and changes nothing.
  pub create_order_twice :
      (k : ℕ) (w w' : World) (r : OrderReply)
      → dto.idempotency_key ≡ some k
      → create_order dec faults u dto w ≡ (ok r, w')
      → create_order dec faults u dto w' ≡ (ok r, w')
  create_order_twice k w w' r key h = elim (Option-cases (find_by_key k w.orders)) [
    | inl e ↦
        let new : place_order dec faults u dto w ≡ (ok r, w') =
          unfold create_order in ground arith in
        let (o, found, reply) = placed_keyed k w w' r key new in
        unfold create_order in rw (key, found, reply) refl
    | inr (o, e) ↦ unfold create_order in ground arith
  ]

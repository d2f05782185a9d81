-- ===== src/Matching/Candidates.antt =====
-- The query of `matchOrder` for the counterparties (order-matching.service.ts): which orders it
-- returns, and in which order.
use prop_x_exchange.Prelude.{
  Bool, true, false, not, ◌&&◌, ◌||◌, Option, none, some, List, [], ◌∷◌, leb, ◌==◌, if◌then◌else◌,
}
use prop_x_exchange.Prelude.Int.{leb_ℤ, ltb_ℤ}
use prop_x_exchange.Exchange.{Decimal, OrderSide, buy, sell, OrderType, market, limit, Order}
use prop_x_exchange.Orders.Data.{is_open, or_zero}

abbrev pub opposite_side : OrderSide → OrderSide
opposite_side buy = sell
opposite_side sell = buy

abbrev pub same_side : OrderSide → OrderSide → Bool
same_side buy buy = true
same_side sell sell = true
same_side buy sell = false
same_side sell buy = false

-- `priceFilter`: a comparison with a `null` price does not hold.
abbrev pub price_filter : OrderType → OrderSide → Decimal → Option Decimal → Bool
price_filter market side price candidate = true
price_filter limit side price none = false
price_filter limit buy price (some p) = leb_ℤ p price
price_filter limit sell price (some p) = leb_ℤ price p

-- the `where` clause
unfoldable pub is_candidate : Order → Order → Bool
is_candidate order o =
    (o.asset_id == order.asset_id)
    && same_side o.side (opposite_side order.side)
    && is_open o.status
    && price_filter order.type order.side (or_zero order.price) o.price
    && not (o.user_id == order.user_id)

-- PostgreSQL sorts `null` behind every price.
abbrev pub price_below : Option Decimal → Option Decimal → Bool
price_below none q = false
price_below (some p) none = true
price_below (some p) (some q) = ltb_ℤ p q

-- `orderBy`: the best price for the side, then the oldest
abbrev pub goes_before : OrderSide → Order → Order → Bool
goes_before buy a b =
    price_below a.price b.price
    || (not (price_below b.price a.price) && leb a.created_at b.created_at)
goes_before sell a b =
    price_below b.price a.price
    || (not (price_below a.price b.price) && leb a.created_at b.created_at)

-- An insertion sort stands for the `ORDER BY` of the database.
unfoldable pub insert_sorted : OrderSide → Order → List Order → List Order
insert_sorted side o [] = o ∷ []
insert_sorted side o (x ∷ xs) =
    if goes_before side o x then o ∷ x ∷ xs else x ∷ insert_sorted side o xs

unfoldable pub candidates : Order → List Order → List Order
unfolding is_candidate insert_sorted
candidates order [] = []
candidates order (o ∷ rows) =
    let rest = candidates order rows in
    if is_candidate order o then insert_sorted order.side o rest else rest

-- ===== src/Orders/Table.antt =====
-- The order table of prisma/schema.prisma.
use prop_x_exchange.Prelude.{
  ℕ, ⊤, ◌≡◌, Option, none, some, List, [], ◌∷◌, arith, ◌==◌, if◌then◌else◌,
}
use prop_x_exchange.Errors.{record_not_found}
use prop_x_exchange.Exec.{pure, modify, or_raise, ◌>>=◌, ◌>>◌, gets}
use prop_x_exchange.Exchange.{Order, Action, Asset}

-- `order.findUnique({ where: { id } })`
unfoldable pub find_order : ℕ → List Order → Option Order
find_order id [] = none
find_order id (o ∷ rows) = if o.id == id then some o else find_order id rows

unfoldable pub put_order : Order → List Order → List Order
put_order n [] = []
put_order n (o ∷ rows) = if o.id == n.id then n ∷ rows else o ∷ put_order n rows

-- `asset.findUnique({ where: { id } })`
unfoldable pub find_asset : ℕ → List Asset → Option Asset
find_asset id [] = none
find_asset id (a ∷ rows) = if a.id == id then some a else find_asset id rows

unfoldable pub put_asset : Asset → List Asset → List Asset
put_asset n [] = []
put_asset n (a ∷ rows) = if a.id == n.id then n ∷ rows else a ∷ put_asset n rows

abbrev pub save_order : Order → Action ⊤
save_order n = modify λ w. record w { db = record w.db { orders = put_order n w.orders } }

abbrev pub save_asset : Asset → Action ⊤
save_asset n = modify λ w. record w { db = record w.db { assets = put_asset n w.assets } }

-- `order.update({ where: { id }, data })`: a missing row is an error of the database.
unfoldable pub update_order : ℕ → (Order → Order) → Action Order
update_order id change = do
  found ← gets (λ w. find_order id w.orders)
  order ← or_raise found record_not_found
  save_order (change order)
  pure (change order)

unfoldable pub update_asset : ℕ → (Asset → Asset) → Action Asset
update_asset id change = do
  found ← gets (λ w. find_asset id w.assets)
  asset ← or_raise found record_not_found
  save_asset (change asset)
  pure (change asset)

pub find-put_order :
    (n old : Order) (rows : List Order) (id : ℕ)
    → find_order n.id rows ≡ some old
    → find_order id (put_order n rows) ≡ (if n.id == id then some n else find_order id rows)
unfolding find_order put_order
find-put_order n old [] id h = cc
find-put_order n old (o ∷ rows) id h = ground (arith, find-put_order n old rows id)

pub find_order-id :
    (id : ℕ) (o : Order) (rows : List Order) → find_order id rows ≡ some o → o.id ≡ id
unfolding find_order
find_order-id id o [] h = cc
find_order-id id o (x ∷ rows) h = ground (arith, find_order-id id o rows)

pub find_asset-id :
    (id : ℕ) (a : Asset) (rows : List Asset) → find_asset id rows ≡ some a → a.id ≡ id
unfolding find_asset
find_asset-id id a [] h = cc
find_asset-id id a (x ∷ rows) h = ground (arith, find_asset-id id a rows)

pub find-put_asset :
    (n old : Asset) (rows : List Asset) (id : ℕ)
    → find_asset n.id rows ≡ some old
    → find_asset id (put_asset n rows) ≡ (if n.id == id then some n else find_asset id rows)
unfolding find_asset put_asset
find-put_asset n old [] id h = cc
find-put_asset n old (o ∷ rows) id h = ground (arith, find-put_asset n old rows id)

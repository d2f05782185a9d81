-- ===== src/Orders/Updates.antt =====
-- Updates of the order and asset tables do not touch the balances.
use prop_x_exchange.Prelude.{ℕ, arith}
use prop_x_exchange.Exec.Ensures.{Ensures}
use prop_x_exchange.Exchange.{Order, Asset}
use prop_x_exchange.Ledger.Conserves.{Conserves, aside-Conserves}
use prop_x_exchange.Balances.Atomic.{IsAtomic, atomic_rules}
use prop_x_exchange.Orders.Table.{update_order, update_asset}

pub update_order-Conserves : (id : ℕ) (f : Order → Order) → Ensures Conserves (update_order id f)
update_order-Conserves id f =
    aside-Conserves (update_order id f) (λ w. unfold update_order in ground arith)

pub update_asset-Conserves : (id : ℕ) (f : Asset → Asset) → Ensures Conserves (update_asset id f)
update_asset-Conserves id f =
    aside-Conserves (update_asset id f) (λ w. unfold update_asset in ground arith)

pub update_order-IsAtomic : (id : ℕ) (f : Order → Order) → IsAtomic (update_order id f)
unfolding update_order
update_order-IsAtomic id f = search atomic_rules depth 8

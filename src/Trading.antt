-- ===== src/Trading.antt =====
-- The requests that reach the trading services: those of modules/orders/controllers, and the jobs
-- of the matching queue (order-matching.service.ts).
pub mod Invariant
use prop_x_exchange.Prelude.{ℕ, ⊤, List, [], ◌∷◌}
use prop_x_exchange.Exec.{ok, pure, ◌>>=◌, ◌>>◌}
use prop_x_exchange.Exchange.{Arithmetic, World, Action}
use prop_x_exchange.Orders.Data.{CreateOrder, UpdateOrder}
use prop_x_exchange.Orders.Create.{Faults, create_order}
use prop_x_exchange.Orders.Change.{cancel_order, update_order_request, bulk_cancel_orders}
use prop_x_exchange.Matching.{match_order}

-- A request to create an order comes with what fails on the way.
pub data Request : Type 0 where
  create : Faults → ℕ → CreateOrder → Request
  update : ℕ → ℕ → UpdateOrder → Request
  cancel : ℕ → ℕ → Request
  bulk_cancel : ℕ → List ℕ → Request
  match_job : ℕ → Request

-- The reply is dropped.
unfoldable pub handle : Arithmetic → Request → Action ⊤
handle dec (create faults user dto) = create_order dec faults user dto >> pure tt
handle dec (update user id dto) = update_order_request dec user id dto >> pure tt
handle dec (cancel user id) = cancel_order dec user id
handle dec (bulk_cancel user ids) = λ w. (ok tt, (bulk_cancel_orders dec user ids w).1)
handle dec (match_job id) = match_order dec id >> pure tt

-- Requests one after the other; one that raises does not stop the next.
unfoldable pub serve : Arithmetic → List Request → World → World
unfolding handle
serve dec [] w = w
serve dec (r ∷ rs) w = serve dec rs (handle dec r w).1

-- ===== src/Trading/Invariant.antt =====
-- What every sequence of trading requests keeps.
use prop_x_exchange.Prelude.{ℕ, ◌≡◌, List, [], ◌∷◌, arith}
use prop_x_exchange.Exchange.{Arithmetic, World}
use prop_x_exchange.Balances.Atomic.{atomic_rules}
use prop_x_exchange.Ledger.Conserves.{
  Conserves, Conserves-IsPreorder, conserving_rules, always_conserves,
}
use prop_x_exchange.Exec.Always.{Always, always_rules}
use prop_x_exchange.Exec.{pure, ◌>>◌}
use prop_x_exchange.Orders.Data.{CreateOrder}
use prop_x_exchange.Orders.Create.{Faults, create_order}
use prop_x_exchange.Matching.{match_order}
use prop_x_exchange.Orders.Change.{
  update_order_request, cancel_order, cancel_result, cancel_each, bulk_cancel_orders,
}
use prop_x_exchange.Orders.Conserves.{
  create_order-Always, cancel_order-IsAtomic, cancel_order-Ensures, update_order_request-IsAtomic,
  update_order_request-Ensures,
}
use prop_x_exchange.Matching.Conserves.{match_order-IsAtomic, match_order-Ensures}
use prop_x_exchange.Trading.{Request, create, update, cancel, bulk_cancel, match_job, handle, serve}

module _ (dec : Arithmetic) where
  cancel_result-Conserves : (u id : ℕ) (w : World) → Conserves w (cancel_result dec u id w).1
  cancel_result-Conserves u id w =
      let same : (cancel_result dec u id w).1 ≡ (cancel_order dec u id w).1 =
        unfold cancel_result in ground arith in
      rw same (
        always_conserves (cancel_order dec u id) (cancel_order-Ensures dec u id)
          (cancel_order-IsAtomic dec u id) w)

  cancel_each-Conserves :
      (u : ℕ) (ids : List ℕ) (w : World) → Conserves w (cancel_each dec u ids w).1
  unfolding cancel_each
  cancel_each-Conserves u [] w = Conserves-IsPreorder.reflexive w
  cancel_each-Conserves u (id ∷ ids) w =
      Conserves-IsPreorder.transitive _ _ _ (cancel_result-Conserves u id w)
        (cancel_each-Conserves u ids (cancel_result dec u id w).1)

  handle-Conserves : (r : Request) (w : World) → Conserves w (handle dec r w).1
  unfolding handle
  handle-Conserves (create f u dto) w = (created f u dto).at w
    where
      created :
          (f : Faults) (u : ℕ) (dto : CreateOrder)
          → Always Conserves (create_order dec f u dto >> pure tt)
      created f u dto = search (always_rules, create_order-Always)
  handle-Conserves (update u id dto) w =
      always_conserves (update_order_request dec u id dto >> pure tt)
        (search (conserving_rules, update_order_request-Ensures))
        (search (atomic_rules, update_order_request-IsAtomic)) w
  handle-Conserves (cancel u id) w =
      always_conserves (cancel_order dec u id) (cancel_order-Ensures dec u id)
        (cancel_order-IsAtomic dec u id) w
  handle-Conserves (bulk_cancel u ids) w =
      unfold bulk_cancel_orders in cancel_each-Conserves u ids w
  handle-Conserves (match_job id) w =
      always_conserves (match_order dec id >> pure tt)
        (search (conserving_rules, match_order-Ensures))
        (search (atomic_rules, match_order-IsAtomic)) w

  -- Any requests to the trading services, in any order, leave the total of every currency as it
  -- was and, from a table of balances with no negative amount, lead to such a table.
  pub serve-Conserves : (rs : List Request) (w : World) → Conserves w (serve dec rs w)
  unfolding serve
  serve-Conserves [] w = Conserves-IsPreorder.reflexive w
  serve-Conserves (r ∷ rs) w =
      Conserves-IsPreorder.transitive _ _ _ (handle-Conserves r w)
        (serve-Conserves rs (handle dec r w).1)

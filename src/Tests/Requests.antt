-- ===== src/Tests/Requests.antt =====
-- The theorems on orders and on requests (orders.service.ts) at the exchange of Tests.
use prop_x_exchange.Prelude.{false, ◌≡◌, refl, true, some}
use prop_x_exchange.Prelude.Int.{◌+ℤ◌, ◌-ℤ◌}
use prop_x_exchange.Exec.{ok}
use prop_x_exchange.Exchange.{cancelled, open_order, Order, World}
use prop_x_exchange.Orders.Table.{find_order}
use prop_x_exchange.Orders.Data.{
  OrderReply, UpdateReply, BulkCancelReply, length, count_successes, is_cancellable,
}
use prop_x_exchange.Orders.Create.{Faults, create_order}
use prop_x_exchange.Orders.Change.{cancel_order}
use prop_x_exchange.Orders.Lifecycle.{Released, cancel_order_lem}
use prop_x_exchange.Orders.Idempotent.{create_order_twice}
use prop_x_exchange.Ledger.Conserves.{Conserves}
use prop_x_exchange.Trading.{serve}
use prop_x_exchange.Trading.Invariant.{serve-Conserves}
use prop_x_exchange.Tests.{units, exchange, new_bid, day}

abbrev after_cancel : World
after_cancel = (cancel_order units 1 12 exchange).1

cancel_order_lem_example :
    (o : Order) × (find_order 12 exchange.orders ≡ some o)
    × (o.user_id ≡ 1)
    × (is_cancellable o.status ≡ true)
    × (find_order 12 after_cancel.orders ≡ some (record o { status = cancelled }))
    × Released units 1 12 exchange o after_cancel
unfolding cancel_order ◌+ℤ◌ ◌-ℤ◌ find_order prop_x_exchange.Balances.transaction
    prop_x_exchange.Orders.Table.update_order prop_x_exchange.Ledger.unlock_order_remainder
    prop_x_exchange.Balances.transfer_between_available_and_locked
    prop_x_exchange.Balances.Table.find_balance
cancel_order_lem_example = cancel_order_lem units 1 12 exchange after_cancel refl

abbrev no_faults : Faults
no_faults = record { at_insert = false; at_queue = false }

abbrev after_bid : World
after_bid = (create_order units no_faults 1 new_bid exchange).1

abbrev bid_reply : OrderReply
bid_reply = record { order_id = 20; status = open_order }

create_order_twice_example :
    create_order units no_faults 1 new_bid after_bid ≡ (ok bid_reply, after_bid)
unfolding create_order ◌+ℤ◌ ◌-ℤ◌ prop_x_exchange.Orders.Data.find_by_key
    prop_x_exchange.Orders.Table.find_asset prop_x_exchange.Balances.transaction
    prop_x_exchange.Ledger.lock_order_funds
    prop_x_exchange.Balances.transfer_between_available_and_locked
    prop_x_exchange.Balances.Table.find_balance
create_order_twice_example =
    create_order_twice units no_faults 1 new_bid 41 exchange after_bid bid_reply refl refl

serve-Conserves_example : Conserves exchange (serve units day exchange)
serve-Conserves_example = serve-Conserves units day exchange

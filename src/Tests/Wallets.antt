-- ===== src/Tests/Wallets.antt =====
-- The theorems on wallets (balances.service.ts, trading-ledger.service.ts) at the exchange of Tests.
use prop_x_exchange.Prelude.{some, List}
use prop_x_exchange.Balances.Views.{
  Command, update_command, transfer_command, view, run_view, run_commands,
}
use prop_x_exchange.Balances.Refines.{commands_refine}
use prop_x_exchange.Prelude.{◌≡◌, refl, true, none, [], ◌∷◌, arith}
use prop_x_exchange.Prelude.Int.{pos, ◌+ℤ◌, ◌-ℤ◌}
use prop_x_exchange.Errors.{write_conflict}
use prop_x_exchange.Exec.{err}
use prop_x_exchange.Exchange.{Balance, World, Action}
use prop_x_exchange.Balances.{
  debit, credit, update_balance, default_options, locked_only, available_to_locked,
  locked_to_available, transfer_between_available_and_locked, transaction, with_retries,
}
use prop_x_exchange.Balances.Table.{IsSolvent}
use prop_x_exchange.Balances.Safety.{with_retries_once}
use prop_x_exchange.Ledger.{settle_match}
use prop_x_exchange.Ledger.Settlement.{Settled, settle_match-Settled}
use prop_x_exchange.Tests.{units, rows, exchange}

pub rows-IsSolvent : IsSolvent rows
rows-IsSolvent = ground arith

abbrev withdraw_20 : Action Balance
withdraw_20 = update_balance 1 none (pos 20) debit default_options

abbrev lock_20 : World
lock_20 = (transfer_between_available_and_locked 1 none (pos 20) available_to_locked exchange).1

-- Four conflicts are one too many for three retries.
with_retries_once_example :
    with_retries 3 (true ∷ true ∷ true ∷ true ∷ []) withdraw_20 exchange
    ≡ (err write_conflict, exchange)
with_retries_once_example =
    with_retries_once 3 (true ∷ true ∷ true ∷ true ∷ []) withdraw_20 exchange

abbrev settled_3 : World
settled_3 = (settle_match units 1 2 7 (pos 3) (pos 9) exchange).1

settle_match-Settled_example : Settled 1 2 7 (pos 3) (pos 27) rows settled_3.balances
unfolding settle_match update_balance ◌+ℤ◌ ◌-ℤ◌ prop_x_exchange.Balances.Table.find_balance
    prop_x_exchange.Balances.Table.put_balance
settle_match-Settled_example =
    settle_match-Settled units 1 2 7 (pos 3) (pos 9) exchange settled_3 refl

abbrev busy_day : List Command
busy_day =
    update_command 1 none (pos 20) debit default_options
    ∷ transfer_command 1 none (pos 90) available_to_locked
    ∷ update_command 5 (some 7) (pos 4) credit locked_only
    ∷ transfer_command 6 none (pos 1) locked_to_available
    ∷ []

-- The second call is refused for want of funds, and the last for want of a wallet.
commands_refine_example :
    ((run_commands busy_day exchange).0 ≡ (run_view busy_day (view rows)).0)
    × (view (run_commands busy_day exchange).1.balances ≡ (run_view busy_day (view rows)).1)
commands_refine_example = commands_refine busy_day exchange

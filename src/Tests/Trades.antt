-- ===== src/Tests/Trades.antt =====
-- The theorems on the matching (order-matching.service.ts) at the exchange of Tests.
use prop_x_exchange.Prelude.{◌≡◌, none, some, List, [], ◌∷◌, All, arith}
use prop_x_exchange.Prelude.Int.{pos, ◌≤ℤ◌, min_ℤ}
use prop_x_exchange.Exchange.{Order}
use prop_x_exchange.Ledger.Conserves.{Conserves}
use prop_x_exchange.Matching.{plan_of, match_order}
use prop_x_exchange.Matching.Candidates.{candidates}
use prop_x_exchange.Matching.Loop.{Plan, plan_fills}
use prop_x_exchange.Matching.Amounts.{Fits, matched, fills_fit}
use prop_x_exchange.Matching.Priority.{supply, matched-eq-min}
use prop_x_exchange.Matching.Book.{IsBook, IsFair, candidates-IsBook, plan-IsFair}
use prop_x_exchange.Matching.Conserves.{match_order-Conserves}
use prop_x_exchange.Tests.{units, ask, bid, exchange}

abbrev two_asks : List Order
two_asks = ask ∷ record ask { id = 14; price = some (pos 10); quantity = pos 4 } ∷ []

abbrev plan : Plan
plan = plan_fills units bid none two_asks (pos 5) (pos 0) (pos 0)

fills_fit_example : All Fits plan.fills × (matched plan.fills ≤ℤ pos 5)
fills_fit_example = fills_fit units bid two_asks (pos 5) (pos 0) (pos 0) (omega arith)

matched-eq-min_example : matched plan.fills ≡ min_ℤ (pos 5) (supply two_asks)
matched-eq-min_example = matched-eq-min units bid two_asks (pos 5) (pos 0) (pos 0) (omega arith)

candidates-IsBook_example : IsBook bid (bid ∷ two_asks) (candidates bid (bid ∷ two_asks))
candidates-IsBook_example = candidates-IsBook bid (bid ∷ two_asks)

plan-IsFair_example : All (IsFair bid) (plan_of units bid (bid ∷ two_asks)).fills
plan-IsFair_example = plan-IsFair units bid (bid ∷ two_asks)

match_order-Conserves_example : Conserves exchange (match_order units 12 exchange).1
match_order-Conserves_example = match_order-Conserves units 12 exchange

-- ===== src/Dividends/Interest.antt =====
-- `processInterestPayments` of dividends.service.ts
use prop_x_exchange.Prelude.{
  ℕ, ⊤, Bool, false, ◌&&◌, Option, none, some, List, [], ◌∷◌, leb, ◌==◌, if◌then◌else◌,
}
use prop_x_exchange.Prelude.Rows.{select, update_where}
use prop_x_exchange.Prelude.Int.{pos, ◌+ℤ◌, ◌-ℤ◌, ltb_ℤ}
use prop_x_exchange.Exec.{modify}
use prop_x_exchange.Exchange.{Decimal, Arithmetic, Asset, World, Action}
use prop_x_exchange.Tables.Dividends.{
  InterestPaymentRequest, interest_pending, interest_paid, interest_late, interest_defaulted,
}
use prop_x_exchange.Orders.Table.{find_asset, put_asset}
use prop_x_exchange.Orders.Data.{or_else}

abbrev pub is_overdue : ℕ → InterestPaymentRequest → Bool
is_overdue now p = elim p.status [
  | interest_pending ↦ leb p.due_date now
  | interest_paid ↦ false
  | interest_late ↦ false
  | interest_defaulted ↦ false
]

abbrev pub include_asset :
    InterestPaymentRequest
    → Option Asset
    → List (InterestPaymentRequest × Asset)
    → List (InterestPaymentRequest × Asset)
include_asset p none rest = rest
include_asset p (some a) rest = (p, a) ∷ rest

-- The rows of the query with the asset that `include` reads; a payment refers to an asset that is
-- there.
unfoldable pub with_assets :
    List InterestPaymentRequest → List Asset → List (InterestPaymentRequest × Asset)
with_assets [] assets = []
with_assets (p ∷ ps) assets = include_asset p (find_asset p.asset_id assets) (with_assets ps assets)

unfoldable pub mark_late : ℕ → Action ⊤
mark_late id = modify λ w. record w {
  db = record w.db {
    interest_payments =
        update_where (λ p. p.id == id) (λ p. record p { status = interest_late })
          w.interest_payments;
  };
}

-- `asset.update` of the two percentages; the row is there.
unfoldable pub set_shares : ℕ → Decimal → Decimal → World → World
set_shares id retained released w = elim (find_asset id w.assets) [
  | none ↦ w
  | some a ↦ record w {
    db = record w.db {
      assets =
          put_asset
            (record a {
              retained_token_percentage = retained;
              released_token_percentage = released;
            })
            w.assets;
    };
  }
]

-- The decimal is the penalty rate of an asset that has none, 0.05.
module _ (dec : Arithmetic) (default_rate : Decimal) where
  -- the penalty of an asset, as the query has read it
  unfoldable pub apply_penalty : Asset → World → World
  unfolding set_shares
  apply_penalty asset w =
      let rate = or_else asset.penalty_rate default_rate in
      let penalty = dec.times asset.retained_token_percentage rate in
      if ltb_ℤ (pos 0) rate && ltb_ℤ (pos 0) asset.retained_token_percentage
      then set_shares asset.id (asset.retained_token_percentage -ℤ penalty)
          (asset.released_token_percentage +ℤ penalty) w
      else w

  unfoldable pub penalize : InterestPaymentRequest × Asset → World → World
  unfolding apply_penalty mark_late
  penalize (p, asset) w = apply_penalty asset (mark_late p.id w).1

  unfoldable pub penalize_each : List (InterestPaymentRequest × Asset) → World → World
  unfolding penalize
  penalize_each [] w = w
  penalize_each (p ∷ ps) w = penalize_each ps (penalize p w)

  unfoldable pub process_interest_payments : World → World
  unfolding penalize_each
  process_interest_payments w =
      penalize_each (with_assets (select (is_overdue w.now) w.interest_payments) w.assets) w

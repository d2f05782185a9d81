-- ===== src/Dividends/Snapshots.antt =====
-- `createDistribution` and `processSnapshots` of dividends.service.ts
pub mod Pages
pub mod Paid
use prop_x_exchange.Prelude.{
  ℕ, zero, suc, ◌+◌, ⊤, Bool, true, false, not, ◌&&◌, ◌||◌, Option, none, some, List, [], ◌∷◌, ◌++◌,
  map, leb, ◌==◌, if◌then◌else◌,
}
use prop_x_exchange.Prelude.Lists.{take, drop}
use prop_x_exchange.Prelude.Rows.{find_first, update_where, select}
use prop_x_exchange.Prelude.Int.{ℤ, pos, ◌+ℤ◌, leb_ℤ, ltb_ℤ}
use prop_x_exchange.Errors.{asset_not_found, invalid_total_supply}
use prop_x_exchange.Exec.{Result, ok, err, pure, raise_if, or_raise, gets, modify, ◌>>=◌, ◌>>◌}
use prop_x_exchange.Exchange.{Decimal, Arithmetic, Balance, Asset, World, Action}
use prop_x_exchange.Tables.Dividends.{
  DividendDistribution, DistributionStatus, dist_pending, ready_for_claim, dist_completed,
  DividendClaim, claim_pending,
}
use prop_x_exchange.Tables.Users.{distribution_created}
use prop_x_exchange.Users.Table.{create_audit}
use prop_x_exchange.Balances.Table.{same_asset}
use prop_x_exchange.Orders.Table.{find_asset}
use prop_x_exchange.Orders.Data.{length}
use prop_x_exchange.Dividends.Claims.{is_claim_of}

unfoldable pub insert_distribution : ℕ → Decimal → ℕ → Action DividendDistribution
insert_distribution asset_id total snapshot_date w =
    let row : DividendDistribution = record {
      id = w.next_id;
      asset_id = asset_id;
      total_amount = total;
      snapshot_date = snapshot_date;
      status = dist_pending;
    } in
    (
      ok row,
      record w {
        db = record w.db { distributions = row ∷ w.distributions };
        next_id = suc w.next_id;
      },
    )

-- The date of `none` is now.
unfoldable pub create_distribution : ℕ → ℕ → Decimal → Option ℕ → Action DividendDistribution
unfolding insert_distribution
create_distribution admin_id asset_id total snapshot_date = do
  found ← gets (λ w. find_asset asset_id w.assets)
  asset ← or_raise found asset_not_found
  now ← gets (λ w. w.now)
  row ← insert_distribution asset_id total (elim snapshot_date [ none ↦ now | some d ↦ d ])
  create_audit distribution_created row.id admin_id
  pure row

abbrev pub is_due : ℕ → DividendDistribution → Bool
is_due now d = elim d.status [
  | dist_pending ↦ leb d.snapshot_date now
  | ready_for_claim ↦ false
  | dist_completed ↦ false
]

-- `OR: [{ available: { gt: '0' } }, { locked: { gt: '0' } }]` of one asset
abbrev pub is_holding : ℕ → Balance → Bool
is_holding asset_id b =
    same_asset b.asset_id (some asset_id) && (ltb_ℤ (pos 0) b.available || ltb_ℤ (pos 0) b.locked)

-- A row of `claimsData`: the user and the payout.
pub record Payout : Type 0 where
  pub user_id : ℕ
  pub amount : Decimal

-- `claimsData.length` is counted, also for rows that `skipDuplicates` leaves out.
unfoldable pub add_claim : ℕ → Payout → World → World
add_claim distribution p w = elim (find_first (is_claim_of distribution p.user_id) w.claims) [
  | some c ↦ w
  | none ↦ record w {
    db = record w.db {
      claims =
          record {
            id = w.next_id;
            distribution_id = distribution;
            user_id = p.user_id;
            amount = p.amount;
            status = claim_pending;
            claimed_at = none;
          }
          ∷ w.claims;
    };
    next_id = suc w.next_id;
  }
]

-- `dividendClaim.createMany` with `skipDuplicates`
unfoldable pub add_claims : ℕ → List Payout → World → World
unfolding add_claim
add_claims distribution [] w = w
add_claims distribution (p ∷ ps) w = add_claims distribution ps (add_claim distribution p w)

abbrev pub batch_size : ℕ
batch_size = 500

module _ (dec : Arithmetic) where
  abbrev pub payout_of : Decimal → Decimal → Balance → Payout
  payout_of total supply b = record {
    user_id = b.user_id;
    amount = dec.times total (dec.div (b.available +ℤ b.locked) supply);
  }

  -- the rows of one page whose payout is positive
  unfoldable pub claims_data : Decimal → Decimal → List Balance → List Payout
  claims_data total supply page =
      select (λ p. ltb_ℤ (pos 0) p.amount) (map (payout_of total supply) page)

  -- The `while (true)` loop. The rows that are left stand for the cursor; the first argument
  -- bounds the pages.
  unfoldable pub claim_pages : ℕ → ℕ → Decimal → Decimal → List Balance → ℕ → World → ℕ × World
  unfolding claims_data add_claims
  claim_pages zero distribution total supply rows count w = (count, w)
  claim_pages (suc fuel) distribution total supply [] count w = (count, w)
  claim_pages (suc fuel) distribution total supply (b ∷ rows) count w =
      let page = take batch_size (b ∷ rows) in
      let claims = claims_data total supply page in
      claim_pages fuel distribution total supply (drop batch_size (b ∷ rows))
        (count + length claims) (add_claims distribution claims w)

  -- all pages of the holdings of an asset
  unfoldable pub take_snapshot : DividendDistribution → Asset → Action ℕ
  unfolding claim_pages
  take_snapshot dist asset w =
      let rows = select (is_holding dist.asset_id) w.balances in
      let (count, w') =
        claim_pages (suc (length rows)) dist.id dist.total_amount asset.total_supply rows 0 w in
      (ok count, w')

  abbrev pub status_for : ℕ → DistributionStatus
  status_for zero = dist_completed
  status_for (suc n) = ready_for_claim

  unfoldable pub set_distribution : ℕ → DistributionStatus → Action ⊤
  set_distribution id status = modify λ w. record w {
    db = record w.db {
      distributions =
          update_where (λ d. d.id == id) (λ d. record d { status = status }) w.distributions;
    };
  }

  -- the body of the loop over the distributions, up to its `catch`
  unfoldable pub process_distribution : DividendDistribution → Action ⊤
  unfolding take_snapshot set_distribution
  process_distribution dist = do
    found ← gets (λ w. find_asset dist.asset_id w.assets)
    asset ← or_raise found asset_not_found
    raise_if (leb_ℤ asset.total_supply (pos 0)) invalid_total_supply
    count ← take_snapshot dist asset
    set_distribution dist.id (status_for count)
    modify λ w. record w { merkle_jobs = w.merkle_jobs ++ dist.id ∷ [] }

  unfoldable pub process_each : List DividendDistribution → World → World
  unfolding process_distribution
  process_each [] w = w
  process_each (d ∷ ds) w = process_each ds (process_distribution d w).1

  unfoldable pub process_snapshots : World → World
  unfolding process_each
  process_snapshots w = process_each (select (is_due w.now) w.distributions) w

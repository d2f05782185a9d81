-- ===== src/Dividends/Claims.antt =====
-- `claimDividend` of dividends.service.ts
pub mod Outcomes
use prop_x_exchange.Prelude.{
  ℕ, suc, ⊤, Bool, true, false, not, ◌&&◌, Option, none, some, List, [], ◌∷◌, ◌==◌, if◌then◌else◌,
}
use prop_x_exchange.Prelude.Rows.{find_first, update_where, count_where}
use prop_x_exchange.Prelude.Int.{pos}
use prop_x_exchange.Errors.{claim_not_found, already_claimed}
use prop_x_exchange.Exec.{pure, raise_if, or_raise, gets, modify, ◌>>=◌, ◌>>◌}
use prop_x_exchange.Exchange.{Decimal, dividend_claim, tx_completed, World, Action}
use prop_x_exchange.Tables.Dividends.{
  DividendClaim, ClaimStatus, claim_pending, claim_claimed, yield_event, claimed,
}
use prop_x_exchange.Balances.{
  credit, default_options, update_balance, create_transaction, transaction,
}
use prop_x_exchange.Ledger.{trigger_commission}

-- the key `distributionId_userId`
abbrev pub is_claim_of : ℕ → ℕ → DividendClaim → Bool
is_claim_of distribution user c = (c.distribution_id == distribution) && (c.user_id == user)

abbrev pub is_claimed : ClaimStatus → Bool
is_claimed claim_claimed = true
is_claimed claim_pending = false

-- `where: { id, status: 'PENDING' }`
abbrev pub is_open_claim : ℕ → DividendClaim → Bool
is_open_claim id c = (c.id == id) && not (is_claimed c.status)

abbrev pub mark_claimed : ℕ → DividendClaim → DividendClaim
mark_claimed now c = record c { status = claim_claimed; claimed_at = some now }

-- the `updateMany`, with its count
unfoldable pub close_claim : ℕ → Action ℕ
close_claim id = do
  count ← gets (λ w. count_where (is_open_claim id) w.claims)
  modify λ w. record w {
    db = record w.db { claims = update_where (is_open_claim id) (mark_claimed w.now) w.claims };
  }
  pure count

-- what follows once the claim is closed
unfoldable pub pay_claim : DividendClaim → Action Decimal
pay_claim c = do
  update_balance c.user_id none c.amount credit default_options
  create_transaction c.user_id dividend_claim c.amount (pos 0) tx_completed none none
  trigger_commission yield_event c.user_id c.amount (claimed c.id)
  pure c.amount

unfoldable pub settle_claim : DividendClaim → Action Decimal
settle_claim c = do
  raise_if (is_claimed c.status) already_claimed
  count ← close_claim c.id
  raise_if (count == 0) already_claimed
  pay_claim c

unfoldable pub write_claim : ℕ → ℕ → Action Decimal
write_claim user_id distribution_id = do
  found ← gets (λ w. find_first (is_claim_of distribution_id user_id) w.claims)
  claim ← or_raise found claim_not_found
  settle_claim claim

unfoldable pub claim_dividend : ℕ → ℕ → Action Decimal
claim_dividend user_id distribution_id = transaction (write_claim user_id distribution_id)

-- ===== src/Tables/Dividends.antt =====
-- Distributions and claims of dividends, interest payments, and the rewards of referrers.
use prop_x_exchange.Prelude.{ℕ, Bool, Option}
use prop_x_exchange.Tables.{Decimal}

pub data DistributionStatus : Type 0 where
  dist_pending ready_for_claim dist_completed : DistributionStatus

pub record DividendDistribution : Type 0 where
  pub id : ℕ
  pub asset_id : ℕ
  pub total_amount : Decimal
  pub snapshot_date : ℕ
  pub status : DistributionStatus

pub data ClaimStatus : Type 0 where
  claim_pending claim_claimed : ClaimStatus

pub record DividendClaim : Type 0 where
  pub id : ℕ
  pub distribution_id : ℕ
  pub user_id : ℕ
  pub amount : Decimal
  pub status : ClaimStatus
  pub claimed_at : Option ℕ

pub data InterestPaymentStatus : Type 0 where
  interest_pending interest_paid interest_late interest_defaulted : InterestPaymentStatus

pub record InterestPaymentRequest : Type 0 where
  pub id : ℕ
  pub asset_id : ℕ
  pub due_date : ℕ
  pub status : InterestPaymentStatus

pub data CommissionEvent : Type 0 where
  trade_event profit_share_event yield_event : CommissionEvent

-- The label that a commission job carries: user, asset and time of a trade, or the id of a claim.
pub data SourceTx : Type 0 where
  traded : ℕ → ℕ → ℕ → SourceTx
  claimed : ℕ → SourceTx

-- `CommissionJobData` of commissions.service.ts
pub record CommissionJob : Type 0 where
  pub event_type : CommissionEvent
  pub source_user_id : ℕ
  pub amount : Decimal
  pub source_tx_id : SourceTx

pub record CommissionConfig : Type 0 where
  pub event_type : CommissionEvent
  pub commission_rate : Decimal
  pub is_active : Bool

-- A reward is created as available.
pub record CommissionReward : Type 0 where
  pub user_id : ℕ
  pub source_user_id : ℕ
  pub event_type : CommissionEvent
  pub amount : Decimal
  pub source_tx_id : SourceTx

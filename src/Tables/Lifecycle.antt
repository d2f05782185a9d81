-- ===== src/Tables/Lifecycle.antt =====
-- The requests by which an asset enters and leaves the exchange.
use prop_x_exchange.Prelude.{ℕ, Option}
use prop_x_exchange.Tables.{Decimal}

pub data OnboardingStatus : Type 0 where
  submitted appraising approved turned_down processing tokenized : OnboardingStatus

pub record AssetOnboardingRequest : Type 0 where
  pub id : ℕ
  pub user_id : ℕ
  pub status : OnboardingStatus
  pub admin_notes : Option ℕ
  pub appraised_value : Option Decimal
  pub penalty_rate : Option Decimal
  pub retained_token_percentage : Decimal
  pub released_token_percentage : Decimal

pub data RedemptionStatus : Type 0 where
  redemption_pending processing_legal redemption_completed redemption_rejected : RedemptionStatus

pub record AssetRedemptionRequest : Type 0 where
  pub id : ℕ
  pub user_id : ℕ
  pub asset_id : ℕ
  pub token_quantity : Decimal
  pub status : RedemptionStatus
  pub legal_transfer_docs : Option ℕ
  pub burn_tx_hash : Option ℕ

pub data CorporateActionType : Type 0 where
  dividend_action depreciation_action liquidation_action : CorporateActionType

-- Every corporate action is recorded as pending.
pub record CorporateAction : Type 0 where
  pub asset_id : ℕ
  pub type : CorporateActionType
  pub amount : Decimal

-- The jobs of the queue `asset-blockchain`.
pub data AssetJob : Type 0 where
  -- asset, hash of the transaction, onboarding request, administrator
  finalize_mint : ℕ → ℕ → ℕ → ℕ → AssetJob
  -- asset, price of one unit, amount to burn
  liquidation_burn : ℕ → Decimal → Decimal → AssetJob
  -- redemption request, hash of the transaction
  finalize_redemption_burn : ℕ → ℕ → AssetJob

-- A ticket that a redemption opens for its user; the subject names the asset.
pub record SupportTicket : Type 0 where
  pub user_id : ℕ
  pub asset_id : ℕ

-- ===== src/Tables/Users.antt =====
-- Users, their identity checks, one-time passwords, shared approvals and the audit log.
use prop_x_exchange.Prelude.{ℕ, Bool, Option, List}

pub data UserRole : Type 0 where
  investor admin : UserRole

pub data KycStatus : Type 0 where
  kyc_none kyc_pending kyc_approving kyc_approved kyc_rejected : KycStatus

pub record User : Type 0 where
  pub id : ℕ
  pub email : ℕ
  pub wallet_address : Option ℕ
  pub role : UserRole
  pub kyc_status : KycStatus
  pub referred_by : Option ℕ
  pub enabled_mfa : Bool
  pub mfa_secret : Option ℕ

pub record KycRecord : Type 0 where
  pub user_id : ℕ
  pub id_number : ℕ
  pub status : KycStatus
  pub reject_reason : Option ℕ
  pub approved_by : Option ℕ
  pub on_chain_whitelisted : Bool
  pub whitelist_tx_hash : Option ℕ

pub data MultiSigStatus : Type 0 where
  sig_pending sig_executed : MultiSigStatus

-- The user and the wallet to put on the whitelist.
pub record Whitelisting : Type 0 where
  pub user_id : ℕ
  pub wallet_address : ℕ

-- What the services propose: KYC_WHITELIST of kyc.service.ts, and MINT_ASSET_TOKEN of
-- assets.service.ts with the asset.
pub data Payload : Type 0 where
  whitelist_user : Whitelisting → Payload
  mint_asset : ℕ → Payload

pub record MultiSigProposal : Type 0 where
  pub id : ℕ
  pub payload : Payload
  pub status : MultiSigStatus
  pub required_approvals : ℕ
  pub approvals : List ℕ

pub record Otp : Type 0 where
  pub email : ℕ
  pub code : ℕ
  pub expires_at : ℕ
  pub created_at : ℕ

-- Entity and action of an audit log.
pub data AuditAction : Type 0 where
  proposal_created voted_for voted_against proposal_executed release_raised : AuditAction
  snapshot_taken proposal_passed proposal_rejected : AuditAction
  distribution_created root_published : AuditAction
  onboarding_created onboarding_status onboarding_tokenized : AuditAction
  redemption_created redemption_status redemption_burn : AuditAction
  kyc_submitted kyc_initiated kyc_finalized kyc_refused : AuditAction
  speed_up_initiated refund_processed : AuditAction

pub record AuditLog : Type 0 where
  pub action : AuditAction
  pub entity_id : ℕ
  pub performed_by : ℕ

-- A job `process-whitelist`.
pub record KycJob : Type 0 where
  pub target : Whitelisting
  pub admin_id : ℕ

-- A notification that is queued for a user.
pub data NoticeType : Type 0 where
  notice_approved notice_rejected : NoticeType

pub record Notice : Type 0 where
  pub user_id : ℕ
  pub type : NoticeType

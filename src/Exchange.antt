-- ===== src/Exchange.antt =====
-- The tables of prisma/schema.prisma that the trading and payment services share, and the queues
-- beside the database. Ids are compared only, so they are numbers; a decimal is an integer, the
-- number of units of the last decimal place that the columns hold.
use prop_x_exchange.Prelude.{ℕ, Bool, Option, List}
pub use prop_x_exchange.Tables.{Decimal}
use prop_x_exchange.Tables.Users.{User, KycRecord, MultiSigProposal, Otp, AuditLog, KycJob, Notice}
pub use prop_x_exchange.Tables.Dividends.{CommissionJob}
use prop_x_exchange.Tables.Dividends.{
  DividendDistribution, DividendClaim, InterestPaymentRequest, CommissionConfig, CommissionReward,
}
use prop_x_exchange.Tables.Governance.{DaoProposal, DaoVotingSnapshot, ProposalVote}
use prop_x_exchange.Tables.Lifecycle.{
  AssetOnboardingRequest, AssetRedemptionRequest, CorporateAction, SupportTicket, AssetJob,
}
use prop_x_exchange.Tables.Settling.{TradeData, Trade}
use prop_x_exchange.Exec.{Exec}

-- Products and quotients of decimal.js, which round, and the number 1. Sums, differences and comparisons of values
-- with one number of places are those of the integers.
pub record Arithmetic : Type 0 where
  pub times : Decimal → Decimal → Decimal
  pub div : Decimal → Decimal → Decimal
  pub one : Decimal

pub data OrderSide : Type 0 where
  buy sell : OrderSide

pub data OrderType : Type 0 where
  market limit : OrderType

pub data OrderStatus : Type 0 where
  pending open_order partially_filled filled cancelled rejected : OrderStatus

pub data AssetTradingStatus : Type 0 where
  trading_open paused closed : AssetTradingStatus

pub data TransactionType : Type 0 where
  deposit withdraw transfer trade_buy trade_sell dividend fee_payment mint burn : TransactionType
  dividend_claim commission : TransactionType

pub data TransactionStatus : Type 0 where
  tx_pending tx_processing tx_completed tx_failed tx_cancelled : TransactionStatus

-- `asset_id` is `none` on the wallet of the quote currency.
pub record Balance : Type 0 where
  pub user_id : ℕ
  pub asset_id : Option ℕ
  pub available : Decimal
  pub locked : Decimal

-- `refund_tx_hash` says by itself whether `refundStatus` is 'COMPLETED' or 'NONE'.
pub record Transaction : Type 0 where
  pub id : ℕ
  pub user_id : ℕ
  pub type : TransactionType
  pub amount : Decimal
  pub fee : Decimal
  pub status : TransactionStatus
  pub idempotency_key : Option ℕ
  pub tx_hash : Option ℕ
  pub confirmations : ℕ
  pub created_at : ℕ
  pub gas_price : Option Decimal
  pub last_gas_price : Option Decimal
  pub speed_up_attempts : ℕ
  pub stuck_since : Option ℕ
  pub refund_tx_hash : Option ℕ

pub record GasSpeedUpAttempt : Type 0 where
  pub transaction_id : ℕ
  pub previous_tx_hash : ℕ
  pub new_tx_hash : ℕ
  pub old_gas_price : Decimal
  pub new_gas_price : Decimal
  pub gas_fee_paid : Decimal

pub record Order : Type 0 where
  pub id : ℕ
  pub user_id : ℕ
  pub asset_id : ℕ
  pub side : OrderSide
  pub type : OrderType
  pub price : Option Decimal
  pub quantity : Decimal
  pub filled_quantity : Decimal
  pub status : OrderStatus
  pub created_at : ℕ
  pub idempotency_key : Option ℕ
  pub account_id : Option ℕ

pub record Asset : Type 0 where
  pub id : ℕ
  pub symbol : ℕ
  pub total_supply : Decimal
  pub token_price : Decimal
  pub reference_price : Option Decimal
  pub price_band_percentage : Decimal
  pub is_active : Bool
  pub trading_status : AssetTradingStatus
  pub contract_address : Option ℕ
  pub penalty_rate : Option Decimal
  pub retained_token_percentage : Decimal
  pub released_token_percentage : Decimal

pub record Db : Type 0 where
  pub balances : List Balance
  pub transactions : List Transaction
  pub orders : List Order
  pub trades : List Trade
  pub assets : List Asset
  pub users : List User
  pub kyc_records : List KycRecord
  pub multi_sig_proposals : List MultiSigProposal
  pub otps : List Otp
  pub audit_logs : List AuditLog
  pub distributions : List DividendDistribution
  pub claims : List DividendClaim
  pub interest_payments : List InterestPaymentRequest
  pub commission_configs : List CommissionConfig
  pub rewards : List CommissionReward
  pub dao_proposals : List DaoProposal
  pub voting_snapshots : List DaoVotingSnapshot
  pub votes : List ProposalVote
  pub onboarding_requests : List AssetOnboardingRequest
  pub redemption_requests : List AssetRedemptionRequest
  pub corporate_actions : List CorporateAction
  pub support_tickets : List SupportTicket
  -- the row `lastScannedBlock` of the table SystemConfig
  pub last_scanned_block : Option ℕ
  pub gas_speed_up_attempts : List GasSpeedUpAttempt

-- The database and what a rollback does not undo: the ids handed out, the queues of jobs and the
-- trades that market data has been told of.
pub record World : Type 0 where
  pub db : Db
  pub open db use *
  pub next_id : ℕ
  pub now : ℕ
  pub commission_jobs : List CommissionJob
  pub matching_jobs : List ℕ
  pub payment_jobs : List ℕ
  pub merkle_jobs : List ℕ
  pub asset_jobs : List AssetJob
  pub kyc_jobs : List KycJob
  pub notices : List Notice
  pub market_trades : List TradeData

abbrev pub Action : Type 0 → Type 0
Action A = Exec World A

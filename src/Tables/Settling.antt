-- ===== src/Tables/Settling.antt =====
-- Trades, with how far each is settled on the chain.
use prop_x_exchange.Prelude.{ℕ, Option}
use prop_x_exchange.Tables.{Decimal}

pub data SettlementStatus : Type 0 where
  unsettled in_settlement settled settlement_failed settlement_rejected : SettlementStatus

-- What a match says of a trade.
pub record TradeData : Type 0 where
  pub asset_id : ℕ
  pub buyer_id : ℕ
  pub seller_id : ℕ
  pub price : Decimal
  pub quantity : Decimal

pub record Trade : Type 0 where
  pub id : ℕ
  pub terms : TradeData
  pub open terms use *
  pub settlement_status : SettlementStatus
  pub tx_hash : Option ℕ
  pub updated_at : ℕ

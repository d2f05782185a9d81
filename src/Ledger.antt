-- ===== src/Ledger.antt =====
-- modules/orders/services/trading-ledger.service.ts
pub mod Settlement
pub mod Conserves
use prop_x_exchange.Prelude.{ℕ, suc, ⊤, none, some, [], ◌∷◌, ◌++◌, if◌then◌else◌}
use prop_x_exchange.Prelude.Int.{pos, leb_ℤ}
use prop_x_exchange.Exec.{pure, modify, ◌>>=◌, ◌>>◌}
use prop_x_exchange.Exchange.{
  Decimal, Arithmetic, OrderSide, buy, sell, trade_buy, trade_sell, tx_completed, World, Action,
}
use prop_x_exchange.Tables.Dividends.{CommissionEvent, trade_event, traded, CommissionJob, SourceTx}
use prop_x_exchange.Balances.{
  available_to_locked, locked_to_available, credit, debit, locked_only, update_balance,
  transfer_between_available_and_locked, create_transaction,
}

-- `triggerCommission` of commissions.service.ts: a job on a queue outside the database
unfoldable pub trigger_commission : CommissionEvent → ℕ → Decimal → SourceTx → Action ⊤
trigger_commission event user_id amount source = modify λ w. record w {
  commission_jobs =
      w.commission_jobs
      ++ record {
        event_type = event;
        source_user_id = user_id;
        amount = amount;
        source_tx_id = source;
      }
        ∷ [];
}

-- the four `updateBalance` calls of `settleMatch`
unfoldable pub settle_legs : ℕ → ℕ → ℕ → Decimal → Decimal → Action ⊤
settle_legs buyer_id seller_id asset_id quantity quote_amount = do
  update_balance buyer_id none quote_amount debit locked_only
  update_balance buyer_id (some asset_id) quantity credit locked_only
  update_balance seller_id (some asset_id) quantity debit locked_only
  update_balance seller_id none quote_amount credit locked_only
  pure tt

-- `transaction.createMany` and the commissions of both sides
unfoldable pub record_settlement : ℕ → ℕ → ℕ → Decimal → Action ⊤
unfolding create_transaction trigger_commission
record_settlement buyer_id seller_id asset_id quote_amount = do
  create_transaction buyer_id trade_buy quote_amount (pos 0) tx_completed none none
  create_transaction seller_id trade_sell quote_amount (pos 0) tx_completed none none
  w ← (λ s. pure s s)
  trigger_commission trade_event buyer_id quote_amount (traded buyer_id asset_id w.now)
  trigger_commission trade_event seller_id quote_amount (traded seller_id asset_id w.now)

module _ (dec : Arithmetic) where
  unfoldable pub lock_order_funds : ℕ → OrderSide → ℕ → Decimal → Decimal → Action ⊤
  lock_order_funds user_id buy asset_id quantity price =
      transfer_between_available_and_locked user_id none (dec.times quantity price)
        available_to_locked
      >> pure tt
  lock_order_funds user_id sell asset_id quantity price =
      transfer_between_available_and_locked user_id (some asset_id) quantity available_to_locked
      >> pure tt

  -- the locked leg of one side
  unfoldable pub unlock_leg : ℕ → OrderSide → ℕ → Decimal → Decimal → Action ⊤
  unlock_leg user_id buy asset_id remaining order_price =
      transfer_between_available_and_locked user_id none (dec.times remaining order_price)
        locked_to_available
      >> pure tt
  unlock_leg user_id sell asset_id remaining order_price =
      transfer_between_available_and_locked user_id (some asset_id) remaining locked_to_available
      >> pure tt

  unfoldable pub unlock_order_remainder : ℕ → OrderSide → ℕ → Decimal → Decimal → Action ⊤
  unfolding unlock_leg
  unlock_order_remainder user_id side asset_id remaining order_price =
      if leb_ℤ remaining (pos 0)
      then pure tt
      else unlock_leg user_id side asset_id remaining order_price

  unfoldable pub settle_match : ℕ → ℕ → ℕ → Decimal → Decimal → Action ⊤
  unfolding settle_legs record_settlement
  settle_match buyer_id seller_id asset_id quantity price =
      let quote_amount = dec.times quantity price in
      settle_legs buyer_id seller_id asset_id quantity quote_amount
      >> record_settlement buyer_id seller_id asset_id quote_amount

unfoldable pub refund_buyer_price_improvement : ℕ → Decimal → Action ⊤
refund_buyer_price_improvement buyer_id amount =
    if leb_ℤ amount (pos 0)
    then pure tt
    else (transfer_between_available_and_locked buyer_id none amount locked_to_available >> pure tt)

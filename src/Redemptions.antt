-- ===== src/Redemptions.antt =====
-- modules/assets/services/redeem.service.ts: the sole holder of an asset takes it off the exchange.
pub mod Outcomes
use prop_x_exchange.Prelude.{
  ℕ, suc, ⊤, Bool, true, false, not, ◌&&◌, ◌||◌, Option, none, some, List, [], ◌∷◌, ◌++◌, ◌==◌,
  if◌then◌else◌,
}
use prop_x_exchange.Prelude.Rows.{find_first, update_where}
use prop_x_exchange.Prelude.Int.{ℤ, pos, ◌+ℤ◌, ltb_ℤ}
use prop_x_exchange.Errors.{
  user_not_found, asset_not_found, kyc_not_approved, asset_not_eligible, not_sole_holder,
  redemption_not_found, already_redeemed, redemption_not_processing, contract_missing, burn_failed,
  record_not_found,
}
use prop_x_exchange.Exec.{ok, pure, raise_if, or_raise, gets, modify, ◌>>=◌, ◌>>◌}
use prop_x_exchange.Exchange.{
  Decimal, Balance, Order, cancelled, Asset, AssetTradingStatus, paused, burn, tx_pending, World,
  Action,
}
use prop_x_exchange.Tables.Users.{
  KycStatus, kyc_approved, redemption_created, redemption_status, redemption_burn,
}
use prop_x_exchange.Tables.Lifecycle.{
  AssetRedemptionRequest, RedemptionStatus, redemption_pending, processing_legal,
  redemption_completed, redemption_rejected, SupportTicket, finalize_redemption_burn, AssetJob,
}
use prop_x_exchange.Users.Table.{find_user, create_audit}
use prop_x_exchange.Orders.Table.{find_asset, update_asset}
use prop_x_exchange.Orders.Data.{is_cancellable, is_trading_open}
use prop_x_exchange.Balances.Table.{find_balance}
use prop_x_exchange.Balances.{create_transaction, save_balance, transaction}

abbrev pub is_approved : KycStatus → Bool
is_approved kyc_approved = true
is_approved _ = false

-- `!userBalance || userAvailableDec.lt(totalSupplyDec)`
abbrev pub lacks : Decimal → Option Balance → Bool
lacks supply none = true
lacks supply (some b) = ltb_ℤ b.available supply

-- the waiting orders of an asset
abbrev pub is_waiting_for : ℕ → Order → Bool
is_waiting_for asset_id o = (o.asset_id == asset_id) && is_cancellable o.status

abbrev pub paused_asset : Asset → Asset
paused_asset a = record a { is_active = false; trading_status = paused }

unfoldable pub cancel_waiting : ℕ → Action ⊤
cancel_waiting asset_id = modify λ w. record w {
  db = record w.db {
    orders = update_where (is_waiting_for asset_id) (λ o. record o { status = cancelled }) w.orders;
  };
}

unfoldable pub insert_request : ℕ → ℕ → Decimal → Action AssetRedemptionRequest
insert_request user_id asset_id quantity w =
    let row : AssetRedemptionRequest = record {
      id = w.next_id;
      user_id = user_id;
      asset_id = asset_id;
      token_quantity = quantity;
      status = redemption_pending;
      legal_transfer_docs = none;
      burn_tx_hash = none;
    } in
    (
      ok row,
      record w {
        db = record w.db { redemption_requests = row ∷ w.redemption_requests };
        next_id = suc w.next_id;
      },
    )

unfoldable pub open_ticket : ℕ → ℕ → Action ⊤
open_ticket user_id asset_id = modify λ w. record w {
  db = record w.db {
    support_tickets = record { user_id = user_id; asset_id = asset_id } ∷ w.support_tickets;
  };
}

-- All that is available is locked.
abbrev pub all_locked : Balance → Balance
all_locked b = record b { available = pos 0; locked = b.locked +ℤ b.available }

-- the request, its ticket and its log
unfoldable pub record_request : ℕ → ℕ → Decimal → Action AssetRedemptionRequest
unfolding insert_request open_ticket
record_request user_id asset_id quantity = do
  row ← insert_request user_id asset_id quantity
  open_ticket user_id asset_id
  create_audit redemption_created row.id user_id
  pure row

-- the transaction of `requestRedeem`
unfoldable pub write_redemption : ℕ → Asset → Balance → Action AssetRedemptionRequest
unfolding cancel_waiting record_request
write_redemption user_id asset b =
    update_asset asset.id paused_asset
    >> cancel_waiting asset.id
    >> save_balance (all_locked b)
    >> record_request user_id asset.id asset.total_supply

unfoldable pub request_redeem : ℕ → ℕ → Action AssetRedemptionRequest
unfolding write_redemption
request_redeem user_id asset_id = do
  found_user ← gets (λ w. find_user user_id w.users)
  user ← or_raise found_user user_not_found
  raise_if (not (is_approved user.kyc_status)) kyc_not_approved
  found ← gets (λ w. find_asset asset_id w.assets)
  asset ← or_raise found asset_not_found
  raise_if (not asset.is_active || not (is_trading_open asset.trading_status)) asset_not_eligible
  held ← gets (λ w. find_balance user_id (some asset_id) w.balances)
  raise_if (lacks asset.total_supply held) not_sole_holder
  b ← or_raise held not_sole_holder
  transaction (write_redemption user_id asset b)

abbrev pub is_request : ℕ → AssetRedemptionRequest → Bool
is_request id r = r.id == id

abbrev pub is_completed : RedemptionStatus → Bool
is_completed redemption_completed = true
is_completed _ = false

abbrev pub is_processing : RedemptionStatus → Bool
is_processing processing_legal = true
is_processing _ = false

-- `assetRedemptionRequest.update({ where: { id }, data })`
unfoldable pub update_request : ℕ → (AssetRedemptionRequest → AssetRedemptionRequest) → Action ⊤
update_request id change = do
  found ← gets (λ w. find_first (is_request id) w.redemption_requests)
  row ← or_raise found record_not_found
  modify λ w. record w {
    db = record w.db {
      redemption_requests = update_where (is_request id) change w.redemption_requests;
    };
  }

abbrev pub or_keep_docs : Option ℕ → Option ℕ → Option ℕ
or_keep_docs none old = old
or_keep_docs (some d) old = some d

unfoldable pub update_redemption_status : ℕ → ℕ → RedemptionStatus → Option ℕ → Action ⊤
unfolding update_request
update_redemption_status redemption_id admin_id status docs = do
  found ← gets (λ w. find_first (is_request redemption_id) w.redemption_requests)
  existing ← or_raise found redemption_not_found
  raise_if (is_completed existing.status) already_redeemed
  update_request redemption_id (λ r. record r {
    status = status;
    legal_transfer_docs = or_keep_docs docs r.legal_transfer_docs;
  })
  create_audit redemption_status redemption_id admin_id

unfoldable pub queue_asset_job : AssetJob → Action ⊤
queue_asset_job job w = (ok tt, record w { asset_jobs = w.asset_jobs ++ job ∷ [] })

-- the transaction of `completeRedemption`
unfoldable pub write_burn : AssetRedemptionRequest → ℕ → ℕ → Action ⊤
unfolding update_request
write_burn r admin_id hash =
    update_request r.id (λ q. record q { status = processing_legal; burn_tx_hash = some hash })
    >> create_transaction r.user_id burn r.token_quantity (pos 0) tx_pending none (some hash)
    >> update_asset r.asset_id paused_asset
    >> create_audit redemption_burn r.id admin_id

-- The first argument is the chain: the hash of a burn that it takes of a contract and an amount.
unfoldable pub complete_redemption : (World → ℕ → Decimal → Option ℕ) → ℕ → ℕ → Action ℕ
unfolding write_burn queue_asset_job
complete_redemption burn_token redemption_id admin_id = do
  found ← gets (λ w. find_first (is_request redemption_id) w.redemption_requests)
  req ← or_raise found redemption_not_found
  raise_if (not (is_processing req.status)) redemption_not_processing
  found_asset ← gets (λ w. find_asset req.asset_id w.assets)
  asset ← or_raise found_asset asset_not_found
  contract ← or_raise asset.contract_address contract_missing
  answer ← gets (λ w. burn_token w contract req.token_quantity)
  hash ← or_raise answer burn_failed
  transaction (write_burn req admin_id hash)
  queue_asset_job (finalize_redemption_burn redemption_id hash)
  pure hash

-- A job `finalize-redemption-burn` (jobs/asset-blockchain.processor.ts); the first argument says
-- whether the chain has taken the transaction.
unfoldable pub finalize_burn : (World → ℕ → Bool) → ℕ → ℕ → Action ⊤
unfolding update_request
finalize_burn is_successful redemption_id hash w =
    update_request redemption_id
      (λ r. record r {
        status = if is_successful w hash then redemption_completed else processing_legal;
      })
      w

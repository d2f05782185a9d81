-- ===== src/Onboarding.antt =====
-- modules/onboarding/services/onboarding.service.ts: an asset enters the exchange; and the job that
-- ends its minting (modules/assets/jobs/asset-blockchain.processor.ts).
pub mod Outcomes
use prop_x_exchange.Prelude.{
  is_some, ℕ, suc, ⊤, Bool, true, false, not, ◌&&◌, Option, none, some, List, [], ◌∷◌, ◌++◌, ◌==◌,
  if◌then◌else◌,
}
use prop_x_exchange.Prelude.Rows.{find_first, update_where}
use prop_x_exchange.Prelude.Int.{pos}
use prop_x_exchange.Errors.{
  onboarding_not_found, already_tokenized, onboarding_not_approved, pin_failed, symbol_taken,
  mint_failed, chain_failed, record_not_found,
}
use prop_x_exchange.Exec.{ok, pure, raise_if, or_raise, gets, modify, ◌>>=◌, ◌>>◌}
use prop_x_exchange.Exchange.{
  Decimal, Asset, paused, trading_open, Transaction, TransactionType, TransactionStatus, mint,
  tx_pending, tx_completed, World, Action,
}
use prop_x_exchange.Tables.Users.{onboarding_created, onboarding_status, onboarding_tokenized}
use prop_x_exchange.Tables.Lifecycle.{
  AssetOnboardingRequest, OnboardingStatus, submitted, approved, processing, tokenized,
  finalize_mint, AssetJob,
}
use prop_x_exchange.Users.Table.{create_audit}
use prop_x_exchange.Orders.Table.{update_asset}
use prop_x_exchange.Orders.Data.{or_else}
use prop_x_exchange.Balances.{create_transaction, transaction}
use prop_x_exchange.Redemptions.{queue_asset_job}

pub record CreateRequest : Type 0 where
  pub penalty_rate : Option Decimal
  pub retained_token_percentage : Option Decimal
  pub released_token_percentage : Option Decimal

pub record UpdateStatus : Type 0 where
  pub status : OnboardingStatus
  pub admin_notes : Option ℕ
  pub appraised_value : Option Decimal

pub record Tokenize : Type 0 where
  pub symbol : ℕ
  pub total_supply : Decimal
  pub token_price : Decimal

unfoldable pub insert_onboarding : AssetOnboardingRequest → Action ⊤
insert_onboarding r w = (
  ok tt,
  record w {
    db = record w.db { onboarding_requests = r ∷ w.onboarding_requests };
    next_id = suc w.next_id;
  },
)

-- The first argument is the decimal 100.
unfoldable pub create_request : Decimal → ℕ → CreateRequest → Action AssetOnboardingRequest
unfolding insert_onboarding
create_request hundred user_id dto = do
  id ← gets (λ w. w.next_id)
  let row : AssetOnboardingRequest = record {
    id = id;
    user_id = user_id;
    status = submitted;
    admin_notes = none;
    appraised_value = none;
    penalty_rate = dto.penalty_rate;
    retained_token_percentage = or_else dto.retained_token_percentage hundred;
    released_token_percentage = or_else dto.released_token_percentage (pos 0);
  }
  insert_onboarding row
  create_audit onboarding_created id user_id
  pure row

abbrev pub is_onboarding : ℕ → AssetOnboardingRequest → Bool
is_onboarding id r = r.id == id

abbrev pub is_tokenized : OnboardingStatus → Bool
is_tokenized tokenized = true
is_tokenized _ = false

abbrev pub is_ready : OnboardingStatus → Bool
is_ready approved = true
is_ready _ = false

-- `assetOnboardingRequest.update({ where: { id }, data })`
unfoldable pub update_onboarding : ℕ → (AssetOnboardingRequest → AssetOnboardingRequest) → Action ⊤
update_onboarding id change = do
  found ← gets (λ w. find_first (is_onboarding id) w.onboarding_requests)
  row ← or_raise found record_not_found
  modify λ w. record w {
    db = record w.db {
      onboarding_requests = update_where (is_onboarding id) change w.onboarding_requests;
    };
  }

-- `a ?? b`
abbrev pub or_old {ℓ} : {A : Type ℓ} → Option A → Option A → Option A
or_old none old = old
or_old (some a) old = some a

unfoldable pub update_status : ℕ → ℕ → UpdateStatus → Action ⊤
unfolding update_onboarding
update_status onboarding_id admin_id dto = do
  found ← gets (λ w. find_first (is_onboarding onboarding_id) w.onboarding_requests)
  existing ← or_raise found onboarding_not_found
  raise_if (is_tokenized existing.status) already_tokenized
  update_onboarding onboarding_id (λ r. record r {
    status = dto.status;
    admin_notes = or_old dto.admin_notes existing.admin_notes;
    appraised_value = or_old dto.appraised_value existing.appraised_value;
  })
  create_audit onboarding_status onboarding_id admin_id

-- The asset of a request, which does not trade yet.
abbrev pub minted : ℕ → Decimal → Tokenize → AssetOnboardingRequest → Asset
minted id band dto r = record {
  id = id;
  symbol = dto.symbol;
  total_supply = dto.total_supply;
  token_price = dto.token_price;
  reference_price = none;
  price_band_percentage = band;
  is_active = false;
  trading_status = paused;
  contract_address = none;
  penalty_rate = r.penalty_rate;
  retained_token_percentage = r.retained_token_percentage;
  released_token_percentage = r.released_token_percentage;
}

-- the unique column `symbol`
abbrev pub has_symbol : ℕ → Asset → Bool
has_symbol symbol a = a.symbol == symbol

unfoldable pub insert_asset : Asset → Action ⊤
insert_asset a = do
  same ← gets (λ w. find_first (has_symbol a.symbol) w.assets)
  raise_if (is_some same) symbol_taken
  modify λ w. record w { db = record w.db { assets = a ∷ w.assets }; next_id = suc w.next_id }

-- the transaction of `tokenize`; the decimal is the default of the price band
unfoldable pub write_tokenize : Decimal → Tokenize → AssetOnboardingRequest → ℕ → Action ℕ
unfolding insert_asset update_onboarding
write_tokenize band dto r hash = do
  id ← gets (λ w. w.next_id)
  insert_asset (minted id band dto r)
  create_transaction r.user_id mint dto.total_supply (pos 0) tx_pending none (some hash)
  update_onboarding r.id (λ q. record q { status = processing })
  pure id

-- What `tokenize` takes from outside: whether the pin of the dossier succeeds, and the hash of the
-- transaction that creates the contract.
pub record Minting : Type 0 where
  pub pin : World → ℕ → Bool
  pub send_tokenize : World → ℕ → Decimal → Option ℕ
  pub price_band : Decimal

unfoldable pub tokenize : Minting → ℕ → ℕ → Tokenize → Action ℕ
unfolding write_tokenize queue_asset_job
tokenize minting onboarding_id admin_id dto = do
  found ← gets (λ w. find_first (is_onboarding onboarding_id) w.onboarding_requests)
  req ← or_raise found onboarding_not_found
  raise_if (not (is_ready req.status)) onboarding_not_approved
  pinned ← gets (λ w. minting.pin w onboarding_id)
  raise_if (not pinned) pin_failed
  answer ← gets (λ w. minting.send_tokenize w dto.symbol dto.total_supply)
  hash ← or_raise answer chain_failed
  id ← transaction (write_tokenize minting.price_band dto req hash)
  queue_asset_job (finalize_mint id hash req.id admin_id)
  pure id

abbrev pub is_mint : TransactionType → Bool
is_mint mint = true
is_mint _ = false

abbrev pub is_waiting : TransactionStatus → Bool
is_waiting tx_pending = true
is_waiting _ = false

abbrev pub has_hash : Option ℕ → ℕ → Bool
has_hash none hash = false
has_hash (some h) hash = h == hash

unfoldable pub complete_mints : ℕ → ℕ → Action ⊤
complete_mints hash confirmations = modify λ w. record w {
  db = record w.db {
    transactions =
        update_where (λ t. is_mint t.type && has_hash t.tx_hash hash && is_waiting t.status)
          (λ t. record t { status = tx_completed; confirmations = confirmations }) w.transactions;
  };
}

-- `finalizeMint`, once the chain has given the address of the contract
unfoldable pub write_mint : ℕ → ℕ → ℕ → ℕ → ℕ → ℕ → Action ⊤
unfolding complete_mints update_onboarding
write_mint asset_id contract hash confirmations onboarding_id admin_id =
    update_asset asset_id (λ a. record a {
      is_active = true;
      trading_status = trading_open;
      contract_address = some contract;
    })
    >> complete_mints hash confirmations
    >> update_onboarding onboarding_id (λ r. record r { status = tokenized })
    >> create_audit onboarding_tokenized onboarding_id admin_id

unfoldable pub finalize_minting : (World → ℕ → Option ℕ) → ℕ → ℕ → ℕ → ℕ → ℕ → Action ⊤
unfolding write_mint
finalize_minting receipt confirmations asset_id hash onboarding_id admin_id = do
  answer ← gets (λ w. receipt w hash)
  contract ← or_raise answer mint_failed
  transaction (write_mint asset_id contract hash confirmations onboarding_id admin_id)

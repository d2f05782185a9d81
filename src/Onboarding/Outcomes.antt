-- ===== src/Onboarding/Outcomes.antt =====
-- What a tokenization that is answered has done.
use prop_x_exchange.Prelude.{ℕ, false, ◌≡◌, true, none, some, [], ◌∷◌, ◌++◌}
use prop_x_exchange.Prelude.Rows.{find_first}
use prop_x_exchange.Exec.{ok, pure, ◌>>=◌, ◌>>◌}
use prop_x_exchange.Exchange.{Asset, paused, Decimal, World, Action}
use prop_x_exchange.Tables.Lifecycle.{AssetOnboardingRequest, processing, finalize_mint}
use prop_x_exchange.Balances.{transaction}
use prop_x_exchange.Redemptions.{queue_asset_job}
use prop_x_exchange.Onboarding.{
  is_onboarding, is_ready, Tokenize, has_symbol, write_tokenize, Minting,
}

abbrev pub as_processing : AssetOnboardingRequest → AssetOnboardingRequest
as_processing r = record r { status = processing }

-- The asset of a request: it is not active and does not trade, has no contract yet, and has the
-- supply and the price of the tokenization and the penalty and the shares of the request.
abbrev pub listed_asset : ℕ → Decimal → Tokenize → AssetOnboardingRequest → Asset
listed_asset n band dto r = record {
  id = n;
  symbol = dto.symbol;
  total_supply = dto.total_supply;
  token_price = dto.token_price;
  reference_price = none;
  price_band_percentage = band;
  is_active = false;
  trading_status = paused;
  contract_address = none;
  penalty_rate = r.penalty_rate;
  retained_token_percentage = r.retained_token_percentage;
  released_token_percentage = r.released_token_percentage;
}

-- What a tokenization that is answered has read and written.
pub record Tokenized (minting : Minting) (id admin : ℕ) (dto : Tokenize) (n : ℕ) (w w' : World)
    : Type 0 where
  pub request : AssetOnboardingRequest
  pub hash : ℕ
  pub found : find_first (is_onboarding id) w.onboarding_requests ≡ some request
  pub was_ready : is_ready request.status ≡ true
  pub sent : minting.send_tokenize w dto.symbol dto.total_supply ≡ some hash
  pub new_symbol : find_first (has_symbol dto.symbol) w.assets ≡ none
  pub assets : w'.assets ≡ listed_asset n minting.price_band dto request ∷ w.assets
  pub request_after :
      find_first (is_onboarding id) w'.onboarding_requests ≡ some (as_processing request)
  pub jobs : w'.asset_jobs ≡ w.asset_jobs ++ finalize_mint n hash request.id admin ∷ []
  pub same_balances : w'.balances ≡ w.balances

queue_mint : ℕ → AssetOnboardingRequest → ℕ → ℕ → Action ℕ
queue_mint admin r hash n = queue_asset_job (finalize_mint n hash r.id admin) >> pure n

write_and_queue : Minting → ℕ → Tokenize → AssetOnboardingRequest → ℕ → Action ℕ
write_and_queue minting admin dto r hash =
    transaction (write_tokenize minting.price_band dto r hash) >>= λ n. queue_mint admin r hash n

queued :
    (admin : ℕ) (r : AssetOnboardingRequest) (hash n m : ℕ) (w w' : World)
    → queue_mint admin r hash n w ≡ (ok m, w')
    → (n ≡ m)
      × (w' ≡ record w { asset_jobs = w.asset_jobs ++ finalize_mint n hash r.id admin ∷ [] })
unfolding queue_mint queue_asset_job
queued admin r hash n m w w' h = (cc, cc)

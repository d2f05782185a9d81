-- ===== src/Tests/Listing.antt =====
-- The theorem on onboarding (onboarding.service.ts) at the exchange of Tests.
use prop_x_exchange.Prelude.{true, none, some, [], ◌∷◌}
use prop_x_exchange.Prelude.Int.{pos}
use prop_x_exchange.Exchange.{World}
use prop_x_exchange.Tables.Lifecycle.{AssetOnboardingRequest, approved}
use prop_x_exchange.Onboarding.{Tokenize, Minting, tokenize}
use prop_x_exchange.Tests.{exchange}

abbrev villa : AssetOnboardingRequest
villa = record {
  id = 16;
  user_id = 1;
  status = approved;
  admin_notes = none;
  appraised_value = some (pos 500);
  penalty_rate = none;
  retained_token_percentage = pos 90;
  released_token_percentage = pos 10;
}

abbrev listing : World
listing = record exchange { db = record exchange.db { onboarding_requests = villa ∷ [] } }

abbrev minting : Minting
minting = record {
  pin = λ w id. true;
  send_tokenize = λ w symbol supply. some 88;
  price_band = pos 1;
}

abbrev dto : Tokenize
dto = record { symbol = 71; total_supply = pos 1000; token_price = pos 2 }

abbrev after_listing : World
after_listing = (tokenize minting 16 3 dto listing).1

-- ===== src/Tests.antt =====
-- An exchange with two traders and one asset, on which the theorems are applied: user 1 bids for
-- the asset 7 with an order that has locked its funds, user 2 asks for less.
use prop_x_exchange.Prelude.{
  ℕ, ◌≡◌, refl, true, false, none, some, List, [], ◌∷◌, arith, ◌+◌, ◌*◌, ◌/◌,
}
use prop_x_exchange.Prelude.Int.{ℤ, pos, negsuc, ◌+ℤ◌, ◌-ℤ◌}
use prop_x_exchange.Exchange.{
  Decimal, Arithmetic, buy, sell, limit, market, open_order, partially_filled, trading_open, Order,
  Balance, Asset, World,
}
use prop_x_exchange.Tables.Users.{User, investor, admin, kyc_approved}
use prop_x_exchange.Orders.Data.{CreateOrder, UpdateOrder}
use prop_x_exchange.Trading.{Request}
pub mod Wallets
pub mod Trades
pub mod Requests
pub mod Payments
pub mod Dividends
pub mod Governance
pub mod Identity
pub mod Listing
pub mod Sessions

-- Decimals without places: a product of integers, a quotient rounded down.
abbrev pub times_units : Decimal → Decimal → Decimal
times_units (pos a) (pos b) = pos (a * b)
times_units (pos a) (negsuc b) = pos 0
times_units (negsuc a) b = pos 0

abbrev pub div_units : Decimal → Decimal → Decimal
div_units (pos a) (pos b) = pos (a / b)
div_units (pos a) (negsuc b) = pos 0
div_units (negsuc a) b = pos 0

abbrev pub units : Arithmetic
units = record { times = times_units; div = div_units; one = pos 1 }

abbrev pub ask : Order
ask = record {
  id = 11;
  user_id = 2;
  asset_id = 7;
  side = sell;
  type = limit;
  price = some (pos 9);
  quantity = pos 3;
  filled_quantity = pos 0;
  status = open_order;
  created_at = 1;
  idempotency_key = none;
  account_id = none;
}

abbrev pub bid : Order
bid = record {
  id = 12;
  user_id = 1;
  asset_id = 7;
  side = buy;
  type = limit;
  price = some (pos 10);
  quantity = pos 5;
  filled_quantity = pos 0;
  status = open_order;
  created_at = 2;
  idempotency_key = some 40;
  account_id = none;
}

abbrev pub half_filled : Order
half_filled = record ask { id = 13; filled_quantity = pos 1; status = partially_filled }

abbrev pub flat : Asset
flat = record {
  id = 7;
  symbol = 70;
  total_supply = pos 100;
  token_price = pos 10;
  reference_price = some (pos 10);
  price_band_percentage = pos 1;
  is_active = true;
  trading_status = trading_open;
  contract_address = some 900;
  penalty_rate = none;
  retained_token_percentage = pos 80;
  released_token_percentage = pos 20;
}

abbrev pub rows : List Balance
rows =
    record { user_id = 1; asset_id = none; available = pos 100; locked = pos 50 }
    ∷ record { user_id = 1; asset_id = some 7; available = pos 0; locked = pos 0 }
    ∷ record { user_id = 2; asset_id = some 7; available = pos 10; locked = pos 3 }
    ∷ record { user_id = 2; asset_id = none; available = pos 0; locked = pos 0 }
    ∷ []

abbrev pub person : ℕ → User
person id = record {
  id = id;
  email = 100 + id;
  wallet_address = some (500 + id);
  role = investor;
  kyc_status = kyc_approved;
  referred_by = none;
  enabled_mfa = false;
  mfa_secret = none;
}

abbrev pub people : List User
people = person 1 ∷ person 2 ∷ record (person 3) { role = admin } ∷ []

abbrev pub exchange : World
exchange = record {
  db = record {
    balances = rows;
    transactions = [];
    orders = bid ∷ ask ∷ half_filled ∷ [];
    trades = [];
    assets = flat ∷ [];
    users = people;
    kyc_records = [];
    multi_sig_proposals = [];
    otps = [];
    audit_logs = [];
    distributions = [];
    claims = [];
    interest_payments = [];
    commission_configs = [];
    rewards = [];
    dao_proposals = [];
    voting_snapshots = [];
    votes = [];
    onboarding_requests = [];
    redemption_requests = [];
    corporate_actions = [];
    support_tickets = [];
    last_scanned_block = none;
    gas_speed_up_attempts = [];
  };
  next_id = 20;
  now = 5;
  commission_jobs = [];
  matching_jobs = [];
  payment_jobs = [];
  merkle_jobs = [];
  asset_jobs = [];
  kyc_jobs = [];
  notices = [];
  market_trades = [];
}

abbrev pub new_bid : CreateOrder
new_bid = record {
  side = buy;
  type = limit;
  asset_id = 7;
  quantity = pos 2;
  price = some (pos 10);
  max_total_cost = none;
  idempotency_key = some 41;
  account_id = none;
}

abbrev pub new_price : UpdateOrder
new_price = record { cancel = false; price = some (pos 12); account_id = none }

-- A day of trading: an order, one that the database refuses, the match of the bid, a cancellation by a stranger, a repricing, and
-- a bulk cancellation with an order that does not exist.
abbrev pub day : List Request
day =
    Request.create (record { at_insert = false; at_queue = false }) 1 new_bid
    ∷ Request.create (record { at_insert = true; at_queue = false }) 1
        (record new_bid { idempotency_key = none })
    ∷ Request.match_job 12
    ∷ Request.cancel 2 12
    ∷ Request.update 2 13 new_price
    ∷ Request.bulk_cancel 1 (20 ∷ 99 ∷ [])
    ∷ []

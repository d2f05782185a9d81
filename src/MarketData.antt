-- ===== src/MarketData.antt =====
-- modules/market-data/services/market-data.service.ts: the candles of the trades, kept in Redis as
-- the trades come and in the database once a minute. A time is in milliseconds on the clock of the
-- server, whose days it counts; an entry of the
-- cache expires, and a batch that the database refuses part of is lost from there on.
use prop_x_exchange.Prelude.{
  ℕ, ltb, not, ◌+◌, ◌*◌, ◌/◌, Bool, ◌&&◌, Option, none, some, List, [], ◌∷◌, ◌++◌, ◌==◌,
  if◌then◌else◌,
}
use prop_x_exchange.Prelude.Int.{pos, ◌+ℤ◌, min_ℤ, max_ℤ}
use prop_x_exchange.Prelude.Rows.{find_first, select}
use prop_x_exchange.Prelude.Lists.{take}
use prop_x_exchange.Exchange.{Decimal}

pub data Resolution : Type 0 where
  minutes_1 minutes_5 minutes_15 hours_1 hours_4 days_1 : Resolution

-- `resolutions`
abbrev pub resolutions : List Resolution
resolutions = minutes_1 ∷ minutes_5 ∷ minutes_15 ∷ hours_1 ∷ hours_4 ∷ days_1 ∷ []

-- A resolution in minutes, by which two of them are compared.
abbrev pub minutes_of : Resolution → ℕ
minutes_of minutes_1 = 1
minutes_of minutes_5 = 5
minutes_of minutes_15 = 15
minutes_of hours_1 = 60
minutes_of hours_4 = 240
minutes_of days_1 = 1440

pub record MarketTrade : Type 0 where
  pub asset_id : ℕ
  pub price : Decimal
  pub quantity : Decimal
  pub is_buy : Bool
  pub timestamp : ℕ

-- Asset, resolution and open time: the key in Redis, the key of a group and the unique columns of
-- the table.
pub record CandleKey : Type 0 where
  pub asset_id : ℕ
  pub resolution : Resolution
  pub open_time : ℕ

pub record Candle : Type 0 where
  pub key : CandleKey
  pub open_price : Decimal
  pub high : Decimal
  pub low : Decimal
  pub close_price : Decimal
  pub volume : Decimal

-- A candle of the cache counts what was bought besides; the table has no column for it.
pub record CachedCandle : Type 0 where
  pub candle : Candle
  pub buy_volume : Decimal

-- A key of Redis with its `EX`.
pub record CacheEntry : Type 0 where
  pub cached : CachedCandle
  pub expires_at : ℕ

pub record MarketState : Type 0 where
  pub now : ℕ
  pub pending_trades : List MarketTrade
  pub cache : List CacheEntry
  pub candlesticks : List Candle

-- `getOpenTimeForResolution`
unfoldable pub get_open_time : ℕ → Resolution → ℕ
get_open_time timestamp r = let period = minutes_of r * 60000 in timestamp / period * period

abbrev pub same_candle : CandleKey → CandleKey → Bool
same_candle a b =
    (a.asset_id == b.asset_id)
    && (minutes_of a.resolution == minutes_of b.resolution)
    && (a.open_time == b.open_time)

abbrev pub key_of : MarketTrade → Resolution → CandleKey
key_of t r = record {
  asset_id = t.asset_id;
  resolution = r;
  open_time = get_open_time t.timestamp r;
}

abbrev pub bought : MarketTrade → Decimal
bought t = if t.is_buy then t.quantity else pos 0

abbrev pub first_candle : CandleKey → MarketTrade → CachedCandle
first_candle k t = record {
  candle = record {
    key = k;
    open_price = t.price;
    high = t.price;
    low = t.price;
    close_price = t.price;
    volume = t.quantity;
  };
  buy_volume = bought t;
}

abbrev pub with_trade : MarketTrade → CachedCandle → CachedCandle
with_trade t c = record {
  candle = record c.candle {
    high = max_ℤ c.candle.high t.price;
    low = min_ℤ c.candle.low t.price;
    close_price = t.price;
    volume = c.candle.volume +ℤ t.quantity;
  };
  buy_volume = c.buy_volume +ℤ bought t;
}

abbrev pub cache_lifetime : ℕ
cache_lifetime = 86400 * 7 * 1000

abbrev pub is_alive_at : ℕ → CandleKey → CacheEntry → Bool
is_alive_at now k e = ltb now e.expires_at && same_candle k e.cached.candle.key

abbrev pub candle_after : CandleKey → MarketTrade → Option CacheEntry → CachedCandle
candle_after k t none = first_candle k t
candle_after k t (some e) = with_trade t e.cached

-- The candle of the key with the trade in it, new where Redis has none any more.
unfoldable pub cache_trade : ℕ → MarketTrade → List Resolution → List CacheEntry → List CacheEntry
cache_trade now t [] entries = entries
cache_trade now t (r ∷ rs) entries =
    let k = key_of t r in
    cache_trade now t rs (
      record {
        cached = candle_after k t (find_first (is_alive_at now k) entries);
        expires_at = now + cache_lifetime;
      }
      ∷ select (λ e. not (same_candle k e.cached.candle.key)) entries)

-- `recordTrade`
unfoldable pub record_trade : MarketTrade → MarketState → MarketState
unfolding cache_trade
record_trade t s = record s {
  pending_trades = s.pending_trades ++ t ∷ [];
  cache = cache_trade s.now t resolutions s.cache;
}

-- The group of the key with the trade in it, new where there is none.
unfoldable pub add_to_group : CandleKey → MarketTrade → List CachedCandle → List CachedCandle
add_to_group k t [] = first_candle k t ∷ []
add_to_group k t (c ∷ cs) =
    let rest = add_to_group k t cs in
    if same_candle k c.candle.key then with_trade t c ∷ cs else c ∷ rest

unfoldable pub add_at : List Resolution → MarketTrade → List CachedCandle → List CachedCandle
unfolding add_to_group
add_at [] t cs = cs
add_at (r ∷ rs) t cs = add_at rs t (add_to_group (key_of t r) t cs)

-- `groupedTrades`
unfoldable pub group_trades : List MarketTrade → List CachedCandle → List CachedCandle
unfolding add_at
group_trades [] groups = groups
group_trades (t ∷ ts) groups = group_trades ts (add_at resolutions t groups)

abbrev pub merged : Candle → Candle → Candle
merged row group = record row {
  high = max_ℤ row.high group.high;
  low = min_ℤ row.low group.low;
  close_price = group.close_price;
  volume = row.volume +ℤ group.volume;
}

-- The row of a group, created where there is none.
unfoldable pub save_group : Candle → List Candle → List Candle
save_group g [] = g ∷ []
save_group g (row ∷ rows) =
    let rest = save_group g rows in
    if same_candle g.key row.key then merged row g ∷ rows else row ∷ rest

unfoldable pub save_groups : List CachedCandle → List Candle → List Candle
unfolding save_group
save_groups [] rows = rows
save_groups (g ∷ gs) rows = save_groups gs (save_group g.candle rows)

-- The groups that are written: all of them, or those before the one that the database refuses.
abbrev pub written_groups : Option ℕ → List CachedCandle → List CachedCandle
written_groups none groups = groups
written_groups (some n) groups = take n groups

-- `syncTradesToDB`: the queue is emptied before its groups are written. The first argument is the
-- number of groups after which the database raises; the error is only logged.
unfoldable pub sync_trades_to_db : Option ℕ → MarketState → MarketState
unfolding group_trades save_groups
sync_trades_to_db fails_after s = record s {
  pending_trades = [];
  candlesticks =
      save_groups (written_groups fails_after (group_trades s.pending_trades [])) s.candlesticks;
}

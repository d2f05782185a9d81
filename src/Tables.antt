-- ===== src/Tables.antt =====
-- The tables of prisma/schema.prisma beside those of trading, one child module for each part. Ids,
-- addresses and other texts are compared only, so they are numbers; so are dates.
pub mod Users
pub mod Dividends
pub mod Governance
pub mod Lifecycle
pub mod Settling
use prop_x_exchange.Prelude.Int.{ℤ}

abbrev pub Decimal : Type 0
Decimal = ℤ

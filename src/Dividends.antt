-- ===== src/Dividends.antt =====
-- modules/dividends: distributions, their claims and their Merkle trees, and interest payments.
pub mod Merkle
pub mod Proofs
pub mod Claims
pub mod Snapshots
pub mod Interest

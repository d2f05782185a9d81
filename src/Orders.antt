-- ===== src/Orders.antt =====
-- modules/orders/services/orders.service.ts, a module for each part of it
pub mod Table
pub mod Data
pub mod Create
pub mod Change
pub mod Updates
pub mod Lifecycle
pub mod Repricing
pub mod Idempotent
pub mod Outcomes
pub mod Conserves

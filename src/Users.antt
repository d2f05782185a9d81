-- ===== src/Users.antt =====
-- The users, whom most parts only read, and the audit log.
pub mod Table

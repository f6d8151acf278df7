-- ===== src/Pool.antt =====
-- internal/pool/pool.go: the bounded connection pool.
pub mod State
pub mod System
pub mod Alone

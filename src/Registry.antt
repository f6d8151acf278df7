-- ===== src/Registry.antt =====
-- internal/registry/registry.go: the health of the backends.
pub mod Backoff
pub mod State
pub mod Lsn
pub mod Poll
pub mod Pollers

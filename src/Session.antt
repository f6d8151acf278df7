-- ===== src/Session.antt =====
-- internal/proxy: the client sessions of the proxy.
pub mod Select
pub mod Dispatch
pub mod Messages
pub mod Routing
pub mod Frontend
pub mod Transaction
pub mod Auth
pub mod Serve
pub mod Position

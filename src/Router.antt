-- ===== src/Router.antt =====
-- internal/router: the policies that pick one of the eligible replicas for a read.
pub mod Policy
pub mod RoundRobin
pub mod InFlight
pub mod LeastInFlight
pub mod Scored
pub mod Members

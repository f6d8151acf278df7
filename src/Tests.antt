-- ===== src/Tests.antt =====
-- Concrete runs of the model, and each theorem applied to one.
mod Registry
mod Router
mod Config
mod Sql
mod Pool
mod Protocol
mod Session
mod Frontend
mod Backend
mod Scram
mod Conn
mod Transaction
mod Server
mod Collector

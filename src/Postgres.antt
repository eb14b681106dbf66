-- ===== src/Postgres.antt =====
-- pkg/postgres: the canonical event store. The server is a parameter (Server).
pub mod Types
pub mod Server
pub mod Ledger
pub mod Schema
pub mod Initialize
pub mod Select
pub mod Authority
pub mod Provision

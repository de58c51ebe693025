-- ===== src/Pool.antt =====
-- backend/src/attribution and backend/src/stores/pool.store.ts: the pool of deposit addresses.
pub mod Types
pub mod State
pub mod Sql
pub mod Manager
pub mod Gather
pub mod Lease
pub mod Config
pub mod Examples

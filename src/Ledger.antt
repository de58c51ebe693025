-- ===== src/Ledger.antt =====
-- backend/src/ledger: the double-entry core.
pub mod Types
pub mod Accounts
pub mod Balanced
pub mod Net
pub mod Flows
pub mod Store
pub mod Totals
pub mod Memory
pub mod Sql
pub mod Solvency
pub mod Service
pub mod Examples

-- ===== src/Payout.antt =====
-- Paying out: backend/src/services/payout.service.ts with the journal of intents and the
-- authorization of transfers, backend/src/chains/payout.
pub mod Types
pub mod Authorization
pub mod Journal
pub mod Postings
pub mod Calls
pub mod Legs
pub mod FeeSweep
pub mod World
pub mod Service
pub mod Approve
mod Examples

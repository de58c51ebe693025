-- ===== src/Deposits.antt =====
-- Deposits from the chain: backend/src/chains/ingest, and the comparison of the ledger with the
-- chain, backend/src/chains/reconcile/external-reconciler.ts.
pub mod Ingest
pub mod Watcher
pub mod Reconcile
mod Examples

-- ===== src/Tron.antt =====
-- What is checked before a Tron transaction is signed: backend/src/chains/tron/tron-tx-verify.ts.
pub mod Hex
pub mod Fields
pub mod Decode
pub mod Verify
mod Examples

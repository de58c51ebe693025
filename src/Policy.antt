-- ===== src/Policy.antt =====
-- backend/src/chains/payout/policy.ts and stores/policy.store.ts: whether a payout may go out.
pub mod Types
pub mod Engine
pub mod KillSwitch
pub mod Allowlist
pub mod Velocity
pub mod Approvals
pub mod Examples

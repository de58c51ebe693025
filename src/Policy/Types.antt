-- ===== src/Policy/Types.antt =====
-- backend/types/models/payout.ts: what a payout asks for and what the policy answers. Times are
-- milliseconds; the texts of reasons are constructors.
use cixtech.Prelude.{ℕ, ℤ, Text, Option, List}

pub record PayoutContext : Type 0 where
  pub tenant : Text
  pub merchant : Text
  pub chain : Text
  pub asset : Text
  pub amount_base_units : ℤ
  pub destination : Text
  pub requester : Option Text
  pub approvals : Option (List Text)
  pub requested_at : Option ℕ

pub data DenyReason : Type 0 where
  halted not_positive over_limit not_allowlisted insolvent over_velocity : DenyReason

pub data PolicyDecision : Type 0 where
  allow : PolicyDecision
  deny : DenyReason → PolicyDecision
  require_approval : (needed have : ℕ) → PolicyDecision
  hold : PolicyDecision
  delay : (until : ℕ) → PolicyDecision

pub record ApprovalPolicy : Type 0 where
  pub threshold_base_units : ℤ
  pub required : ℕ

pub record TimeLockPolicy : Type 0 where
  pub threshold_base_units : ℤ
  pub delay_ms : ℕ

pub record VelocityConfig : Type 0 where
  pub window_ms : ℕ
  pub max_total_base_units : ℤ

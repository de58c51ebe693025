-- ===== src/Payout/Types.antt =====
-- backend/types/models/payout.ts: tokens, intents and requests. Times are milliseconds.
use cixtech.Prelude.{ℕ, ℤ, Text, Option, List}

pub record AuthorizationClaims : Type 0 where
  pub intent_id : Text
  pub tenant : Text
  pub merchant : Text
  pub chain : Text
  pub asset : Text
  pub amount : Text
  pub destination : Text
  pub sighash : Text
  pub policy_version : Text
  pub approvals : List Text
  pub decided_at : ℕ
  pub expires_at : ℕ

pub record AuthorizationToken : Type 0 where
  pub claims : AuthorizationClaims
  pub signature : Text

pub record TransferIdentity : Type 0 where
  pub intent_id : Text
  pub chain : Text
  pub asset : Text
  pub amount : Text
  pub destination : Text
  pub from_address : Text

pub data PayoutIntentStatus : Type 0 where
  locked broadcasting broadcast settled failed : PayoutIntentStatus

pub record NewIntent : Type 0 where
  pub idempotency_key : Text
  pub requested_by : Option Text
  pub tenant : Text
  pub merchant : Text
  pub chain : Text
  pub asset : Text
  pub amount_base_units : ℤ
  pub destination : Text

pub record PayoutRequest : Type 0 where
  pub chain : Text
  pub asset : Text
  pub amount_base_units : ℤ
  pub from_address : Text
  pub from_derivation_index : ℕ
  pub to_address : Text
  pub idempotency_key : Option Text
  pub authorization : Option AuthorizationToken

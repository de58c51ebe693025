-- ===== src/Ledger/Types.antt =====
-- backend/types/models/ledger.ts: postings, journal entries and the inputs of the posting flows.
use cixtech.Prelude.{ℕ, ℤ, Text, Option, List}

pub data Direction : Type 0 where
  debit credit : Direction

pub record Posting : Type 0 where
  pub account : Text
  pub asset : Text
  pub amount : ℤ
  pub direction : Direction

pub record JournalEntry : Type 0 where
  pub id : Text
  pub idempotency_key : Text
  pub kind : Text
  pub postings : List Posting
  pub occurred_at : ℕ

-- A JavaScript number: an integer, or what `Number.isInteger` refuses.
pub data JsNumber : Type 0 where
  integer : ℤ → JsNumber
  not_integer : JsNumber

pub record DepositFinalizedInput : Type 0 where
  pub id : Text
  pub idempotency_key : Text
  pub asset : Text
  pub amount : ℤ
  pub fee_basis_points : JsNumber
  pub pool_addr : Text
  pub merchant_available : Text
  pub fee_revenue : Text
  pub occurred_at : Option ℕ

pub record PayoutLockedInput : Type 0 where
  pub id : Text
  pub idempotency_key : Text
  pub asset : Text
  pub amount : ℤ
  pub merchant_available : Text
  pub merchant_pending_withdrawal : Text
  pub occurred_at : Option ℕ

pub record NetworkFeeLeg : Type 0 where
  pub asset : Text
  pub amount : ℤ
  pub gas_float : Text
  pub expense : Text

pub record PayoutSettledInput : Type 0 where
  pub id : Text
  pub idempotency_key : Text
  pub asset : Text
  pub amount : ℤ
  pub merchant_pending_withdrawal : Text
  pub pool_addr : Text
  pub network_fee : Option NetworkFeeLeg
  pub occurred_at : Option ℕ

pub record FeeSweptInput : Type 0 where
  pub id : Text
  pub idempotency_key : Text
  pub asset : Text
  pub amount : ℤ
  pub pool_addr : Text
  pub treasury : Text
  pub network_fee : Option NetworkFeeLeg
  pub occurred_at : Option ℕ

pub record DepositDetectedInput : Type 0 where
  pub id : Text
  pub idempotency_key : Text
  pub asset : Text
  pub amount : ℤ
  pub pool_addr_unconfirmed : Text
  pub merchant_pending : Text
  pub occurred_at : Option ℕ

pub record DepositQuarantinedInput : Type 0 where
  pub id : Text
  pub idempotency_key : Text
  pub asset : Text
  pub amount : ℤ
  pub pool_addr : Text
  pub compliance_suspense : Text
  pub occurred_at : Option ℕ

pub record DepositReleasedInput : Type 0 where
  pub id : Text
  pub idempotency_key : Text
  pub asset : Text
  pub amount : ℤ
  pub fee : ℤ
  pub compliance_suspense : Text
  pub merchant_available : Text
  pub fee_revenue : Text
  pub occurred_at : Option ℕ

-- `flip` of ledger/entry.ts.
unfoldable pub flip : Direction → Direction
flip Direction.debit = Direction.credit
flip Direction.credit = Direction.debit

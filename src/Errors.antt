-- ===== src/Errors.antt =====
-- The errors that the engine throws (backend/src/common/exceptions, backend/types/errorTypes) and
-- results that carry them. The message and the context of an exception are not modelled.
use mathlib.Core.Path.{◌≡◌, refl}
use mathlib.Core.Logic.{◌⊎◌, inl, inr}
use mathlib.Core.Bool.{Bool, true, false}
use mathlib.Core.Option.{Option, none, some}

pub data ErrorCode : Type 0 where
  -- ApiErrorTypes
  unauthorized forbidden_scope invalid_scopes account_not_found : ErrorCode
  invalid_destination unsafe_webhook_url not_found validation : ErrorCode
  bad_request rate_limited internal unclassified : ErrorCode
  -- AuthErrorTypes
  auth_failed account_locked mfa_required mfa_enrolment_required : ErrorCode
  principal_exists principal_not_found invalid_role not_authenticated : ErrorCode
  forbidden csrf_failed password_change_required : ErrorCode
  -- ChainErrorTypes
  unsupported_chain chain_misconfigured authorization_invalid tron_tx_mismatch : ErrorCode
  policy_denied policy_approval_required policy_time_locked policy_compliance_hold : ErrorCode
  policy_self_approval withdrawal_not_found fee_treasury_not_configured : ErrorCode
  sweep_halted gas_float_depleted gas_treasury_not_configured : ErrorCode
  -- ConfigErrorTypes
  config_not_found config_invalid_env : ErrorCode
  -- InfraErrorTypes
  signing_key_unavailable database_not_configured database_placeholder_url : ErrorCode
  -- LedgerErrorTypes
  ledger_insufficient_funds ledger_unknown_entry ledger_unbalanced_entry : ErrorCode
  ledger_invalid_posting ledger_duplicate_entry_id : ErrorCode
  -- MpcErrorTypes
  mpc_node_rejected mpc_threshold_not_met mpc_bad_contribution mpc_interim_forbidden : ErrorCode
  -- PoolErrorTypes
  pool_insufficient_funds pool_address_not_found pool_concurrent_modification : ErrorCode
  pool_invalid_transition gather_busy gather_strategy_unknown : ErrorCode
  gather_strategy_not_supported : ErrorCode

-- An exception: one of the engine's classes, a plain `Error`, or what the database raises when a
-- constraint of the schema is violated.
pub data Error : Type 0 where
  app : ErrorCode → Error
  plain : Error
  constraint : Error

pub data Result {ℓ} (A : Type ℓ) : Type ℓ where
  err : Error → Result A
  ok : A → Result A

-- An exception skips what follows.
infixl 5 ◌>>=◌ ◌>>◌
abbrev pub ◌>>=◌ {ℓ κ} : {A : Type ℓ} {B : Type κ} → Result A → (A → Result B) → Result B
err thrown >>= next = err thrown
ok value >>= next = next value

abbrev pub ◌>>◌ {ℓ κ} : {A : Type ℓ} {B : Type κ} → Result A → Result B → Result B
first >> next = first >>= λ _. next

-- `if (c) throw e;`
abbrev pub throw_if : Bool → Error → Result (Unit {0})
throw_if true e = err e
throw_if false e = ok tt

abbrev pub or_throw {ℓ} : {A : Type ℓ} → Option A → Error → Result A
or_throw none e = err e
or_throw (some a) e = ok a

-- A sequence that returns has run its first part to a value, and the rest on it.
pub >>=-eq-ok {ℓ κ} :
    {A : Type ℓ} {B : Type κ} (first : Result A) (next : A → Result B) {y : B}
    → (first >>= next) ≡ ok y
    → (x : A) × (first ≡ ok x) × (next x ≡ ok y)
>>=-eq-ok (err thrown) next returned = cc
>>=-eq-ok (ok x) next returned = (x, refl, returned)

pub Result-cases {ℓ} :
    {A : Type ℓ} (r : Result A) → ((a : A) × (r ≡ ok a)) ⊎ ((e : Error) × (r ≡ err e))
Result-cases (ok a) = inl (a, refl)
Result-cases (err e) = inr (e, refl)

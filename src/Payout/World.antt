-- ===== src/Payout/World.antt =====
-- The state that `PayoutService` of backend/src/services/payout.service.ts works on, what its
-- constructor is given, and what it builds from its parameters: the journal of intents, the gather
-- leases, the approvals, the ledger and the world outside, which is the chains, the strategies that
-- prepare an address and what the collaborators of the policy keep.
use cixtech.Prelude.{ℕ, ◌*◌, ℤ, Text, codes, get_or, ◌++◌, Bool, List, [], ◌∷◌, Option, none, some}
use cixtech.Prelude.Dict.{Dict}
use cixtech.Errors.{Result, Error, ErrorCode}
use cixtech.Ledger.Types.{PayoutLockedInput, PayoutSettledInput}
use cixtech.Policy.Engine.{PolicyConfig}
use cixtech.Policy.Approvals.{ApprovalRow}
use cixtech.Pool.Types.{PoolAddressRow, GatherStrategyKind}
use cixtech.Pool.Gather.{AddressBalance}
use cixtech.Pool.Lease.{LeaseRow}
use cixtech.Sweep.{FeeSweepPlan}
use cixtech.Payout.Types.{PayoutIntentStatus, NewIntent, PayoutRequest}
use cixtech.Payout.Authorization.{Signer}
use cixtech.Payout.Journal.{IntentRow}

pub record PayoutParams : Type 0 where
  pub tenant : Text
  pub merchant : Text
  pub chain : Text
  pub asset : Text
  pub amount_base_units : ℤ
  pub destination : Text
  pub idempotency_key : Text
  pub requester : Option Text
  pub approvals : Option (List Text)

pub record PayoutLeg : Type 0 where
  pub address : Text
  pub tx_id : Text
  pub amount_base_units : ℤ

-- The status of a result is always "settled".
pub record PayoutResult : Type 0 where
  pub tx_id : Text
  pub from : Text
  pub legs : Option (List PayoutLeg)

pub record PrepareGatherInput : Type 0 where
  pub chain : Text
  pub address : Text
  pub derivation_index : ℕ
  pub asset : Text
  pub amount_base_units : ℤ
  pub idempotency_key : Text

-- The times that the calls of one payout read, and the id that `begin` draws.
pub record Moment : Type 0 where
  pub intent_id : Text
  pub now : ℕ
  pub begun : ℕ
  pub leased : ℕ
  pub gathered : ℕ
  pub locked : ℕ
  pub sent : ℕ
  pub posted : ℕ
  pub settled : ℕ
  pub swept : ℕ → ℕ

-- The part of the state that neither the journal nor the leases are in. `requests` are the requests
-- that the broadcaster was handed, the first one first.
pub record Engine (S X : Type 0) : Type 0 where
  pub ledger : S
  pub outside : X
  pub requests : List PayoutRequest

pub record World (S X : Type 0) : Type 0 where
  pub intents : List IntentRow
  pub leases : List LeaseRow
  pub approvals : List ApprovalRow
  pub engine : Engine S X

pub record FeeSweep (S X : Type 0) : Type 0 where
  pub plan : (tenant merchant chain asset : Text) → Dict ℤ → S → X → Result FeeSweepPlan
  pub treasury_address_for : Text → Option Text

-- What the constructor is given. A registry maps a kind to the `prepare` of its strategy.
pub record Deps (S X : Type 0) : Type 0 where
  pub policy : S → PolicyConfig X
  pub send : PayoutRequest → X → Result Text × X
  pub balance : X → AddressBalance
  pub addresses : (tenant merchant chain : Text) → X → List PoolAddressRow
  pub journal : Bool
  pub authorizer : Option Signer
  pub auth_ttl_ms : Option ℕ
  pub approval_store : Bool
  pub approvals_required : Option ℕ
  pub fee_sweep : Option (FeeSweep S X)
  pub gather_lease : Option ℕ
  pub gather_strategies :
      Option (GatherStrategyKind → Option (PrepareGatherInput → X → Result ℤ × X))

abbrev pub default_auth_ttl_ms : ℕ
default_auth_ttl_ms = 5 * 60_000

abbrev pub gather_busy : Error
gather_busy = Error.app ErrorCode.gather_busy

abbrev pub strategy_unknown : Error
strategy_unknown = Error.app ErrorCode.gather_strategy_unknown

abbrev pub available_key : PayoutParams → Text
available_key p = codes "merchant_available:" ++ (p.tenant ++ (codes ":" ++ p.merchant))

abbrev pub pending_key : PayoutParams → Text
pending_key p = codes "merchant_pending_withdrawal:" ++ (p.tenant ++ (codes ":" ++ p.merchant))

abbrev pub pool_key : PayoutParams → Text
pool_key p = codes "pool_addr:" ++ (p.chain ++ (codes ":" ++ p.merchant))

abbrev pub new_intent : PayoutParams → NewIntent
new_intent p = record {
  idempotency_key = p.idempotency_key;
  requested_by = p.requester;
  tenant = p.tenant;
  merchant = p.merchant;
  chain = p.chain;
  asset = p.asset;
  amount_base_units = p.amount_base_units;
  destination = p.destination;
}

abbrev pub lock_input : PayoutParams → PayoutLockedInput
lock_input p = record {
  id = p.idempotency_key ++ codes ":lock";
  idempotency_key = p.idempotency_key ++ codes ":lock";
  asset = p.asset;
  amount = p.amount_base_units;
  merchant_available = available_key p;
  merchant_pending_withdrawal = pending_key p;
  occurred_at = none;
}

abbrev pub settle_input : PayoutParams → PayoutSettledInput
settle_input p = record {
  id = codes "settle:" ++ p.idempotency_key;
  idempotency_key = codes "settle:" ++ p.idempotency_key;
  asset = p.asset;
  amount = p.amount_base_units;
  merchant_pending_withdrawal = pending_key p;
  pool_addr = pool_key p;
  network_fee = none;
  occurred_at = none;
}

-- Where an intent stands when its payout is called.
pub data Standing : Type 0 where
  is_settled : (tx_id from : Text) → Standing
  is_broadcast : (tx_id from : Text) → Standing
  is_open : Standing

-- A text that JavaScript takes for true.
abbrev pub filled : Option Text → Option Text
filled none = none
filled (some []) = none
filled (some (c ∷ s)) = some (c ∷ s)

unfoldable pub standing : Option IntentRow → Standing
standing none = Standing.is_open
standing (some r) = elim r.status [
  | PayoutIntentStatus.settled ↦ elim (filled r.tx_id) [
    | some tx_id ↦ Standing.is_settled tx_id (get_or r.from_address [])
    | none ↦ Standing.is_open
  ]
  | PayoutIntentStatus.broadcast ↦ elim (filled r.tx_id) [
    | some tx_id ↦ elim (filled r.from_address) [
      | some from ↦ Standing.is_broadcast tx_id from
      | none ↦ Standing.is_open
    ]
    | none ↦ Standing.is_open
  ]
  | _ ↦ Standing.is_open
]

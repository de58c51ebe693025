-- ===== src/Pool/Types.antt =====
-- backend/types/models/attribution.ts and the rows of backend/src/attribution/pool.port.ts.
use cixtech.Prelude.{ℕ, ℤ, Text, Option}

-- `PoolState` of backend/src/attribution/pool-state.ts.
pub data PoolState : Type 0 where
  available reserved in_use cooling : PoolState

pub data PoolAction : Type 0 where
  reserve detect cool release : PoolAction

pub data GatherStrategyKind : Type 0 where
  eoa_fund_transfer forwarder eip7702 : GatherStrategyKind

pub record PoolAddressRow : Type 0 where
  pub id : Text
  pub tenant : Text
  pub merchant : Text
  pub chain : Text
  pub derivation_index : ℕ
  pub address : Text
  pub state : PoolState
  pub invoice_id : Option Text
  pub cooldown_until : Option ℕ
  pub gather_strategy : GatherStrategyKind

pub record NewPoolAddress : Type 0 where
  pub tenant : Text
  pub merchant : Text
  pub chain : Text
  pub derivation_index : ℕ
  pub address : Text
  pub invoice_id : Text
  pub gather_strategy : GatherStrategyKind

-- A column that is absent is left as it is; `some none` writes null.
pub record StateChange : Type 0 where
  pub invoice_id : Option (Option Text)
  pub cooldown_until : Option (Option ℕ)

pub record GatheredSource : Type 0 where
  pub address : Text
  pub derivation_index : ℕ
  pub gather_strategy : GatherStrategyKind

pub record GatheredLeg : Type 0 where
  pub source : GatheredSource
  pub amount_base_units : ℤ

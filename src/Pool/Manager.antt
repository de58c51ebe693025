-- ===== src/Pool/Manager.antt =====
-- `PoolManager` of backend/src/attribution/pool-manager.ts over the SQL store. The derivation of
-- addresses and the lookup of the active strategy are the parameters that the class takes; the id
-- of a new row is what `randomUUID` returns.
pub mod Assign
pub mod Apply
use cixtech.Prelude.{ℕ, ◌+◌, Text, if◌then◌else◌, Bool, true, false, List, Option, none, some}
use cixtech.Errors.{Result, ok, err, Error, ErrorCode, ◌>>=◌, or_throw}
use cixtech.Pool.Types.{
  PoolState, PoolAction, GatherStrategyKind, PoolAddressRow, NewPoolAddress, StateChange,
}
use cixtech.Pool.State.{same_state, next_pool_state}
use cixtech.Pool.Sql.{
  find_by_address, claim_available, next_index, insert_reserved, set_state, addresses_for_merchant,
}

abbrev pub not_found : Error
not_found = Error.app ErrorCode.pool_address_not_found

abbrev pub concurrent_modification : Error
concurrent_modification = Error.app ErrorCode.pool_concurrent_modification

abbrev pub AddressDeriver : Type 0
AddressDeriver = Text → Text → ℕ → Text

pub record PoolManagerConfig : Type 0 where
  pub cooldown_ms : ℕ
  pub active_strategy : Option (Text → Text → GatherStrategyKind)

abbrev pub resolve_strategy : PoolManagerConfig → Text → Text → GatherStrategyKind
resolve_strategy config chain tenant = elim config.active_strategy [
  | none ↦ GatherStrategyKind.eoa_fund_transfer
  | some active ↦ active chain tenant
]

abbrev pub new_address :
    AddressDeriver → PoolManagerConfig → Text → Text → Text → Text → Text → ℕ → NewPoolAddress
new_address derive config tenant merchant chain invoice xpub index = record {
  tenant = tenant;
  merchant = merchant;
  chain = chain;
  derivation_index = index;
  address = derive chain xpub index;
  invoice_id = invoice;
  gather_strategy = resolve_strategy config chain tenant;
}

-- The address, and the table after.
unfoldable pub assign :
    AddressDeriver
    → PoolManagerConfig
    → Text
    → (tenant merchant chain invoice xpub : Text) → List PoolAddressRow
    → Result (Text × List PoolAddressRow)
unfolding claim_available insert_reserved next_index
assign derive config id tenant merchant chain invoice xpub rows =
    let claim = claim_available tenant merchant chain invoice rows in
    elim claim.0 [
      | some claimed ↦ ok (claimed.address, claim.1)
      | none ↦
          insert_reserved id
            (new_address derive config tenant merchant chain invoice xpub (next_index chain rows))
            rows
          >>= λ inserted. ok (inserted.0.address, inserted.1)
    ]

abbrev pub owner : PoolAddressRow → Option (Text × Text)
owner r = if same_state r.state PoolState.available then none else some (r.tenant, r.merchant)

unfoldable pub resolve : Text → Text → List PoolAddressRow → Option (Text × Text)
unfolding find_by_address
resolve chain address rows = elim (find_by_address chain address rows) [
  | none ↦ none
  | some r ↦ owner r
]

-- `seen` is the table when the row is read, and `rows` the one that the update finds: another
-- worker may have changed it between the two.
unfoldable pub apply :
    PoolAction
    → StateChange
    → (chain address : Text) → (seen rows : List PoolAddressRow)
    → Result (PoolAddressRow × List PoolAddressRow)
unfolding find_by_address set_state next_pool_state
apply action change chain address seen rows = do
  row ← or_throw (find_by_address chain address seen) not_found
  to ← next_pool_state row.state action
  updated ← or_throw (set_state chain address row.state to change rows).0 concurrent_modification
  ok (updated, (set_state chain address row.state to change rows).1)

abbrev pub no_change : StateChange
no_change = record { invoice_id = none; cooldown_until = none }

unfoldable pub mark_in_use :
    (chain address : Text)
    → (seen rows : List PoolAddressRow) → Result (PoolAddressRow × List PoolAddressRow)
unfolding apply
mark_in_use chain address seen rows = apply PoolAction.detect no_change chain address seen rows

abbrev pub cool_change : PoolManagerConfig → ℕ → StateChange
cool_change config now = record {
  invoice_id = none;
  cooldown_until = some (some (now + config.cooldown_ms));
}

unfoldable pub cool :
    PoolManagerConfig
    → ℕ
    → (chain address : Text) → (seen rows : List PoolAddressRow)
    → Result (PoolAddressRow × List PoolAddressRow)
unfolding apply
cool config now chain address seen rows =
    apply PoolAction.cool (cool_change config now) chain address seen rows

abbrev pub release_change : StateChange
release_change = record { invoice_id = some none; cooldown_until = some none }

unfoldable pub release :
    (chain address : Text)
    → (seen rows : List PoolAddressRow) → Result (PoolAddressRow × List PoolAddressRow)
unfolding apply
release chain address seen rows = apply PoolAction.release release_change chain address seen rows

-- ===== src/Pool/Sql.antt =====
-- `SqlPoolStore` of backend/src/stores/pool.store.ts over the table pool_address, with the
-- statements of queries/pool-address.queries.ts. The table has the unique keys id, (chain,
-- address) and (tenant, merchant, chain, derivation_index).
pub mod Unique
use cixtech.Prelude.{
  ℕ, ◌+◌, leb, ltb, ◌==◌, Text, same, if◌then◌else◌, get_or, ◌&&◌, ◌||◌, not, Bool, true, false,
  List, [], ◌∷◌, map, Option, none, some, suc,
}
use cixtech.Errors.{Result, ok, err, Error, ◌>>=◌, ◌>>◌, throw_if}
use cixtech.Pool.Types.{PoolState, PoolAddressRow, NewPoolAddress, StateChange}
use cixtech.Pool.State.{same_state}

abbrev pub stands_at : Text → Text → PoolAddressRow → Bool
stands_at chain address r = same r.chain chain && same r.address address

abbrev pub in_group : Text → Text → Text → PoolAddressRow → Bool
in_group tenant merchant chain r =
    same r.tenant tenant && (same r.merchant merchant && same r.chain chain)

-- `poolAddress.byAddress`
unfoldable pub find_by_address : Text → Text → List PoolAddressRow → Option PoolAddressRow
find_by_address chain address [] = none
find_by_address chain address (r ∷ rows) =
    if stands_at chain address r then some r else find_by_address chain address rows

-- `ORDER BY derivation_index LIMIT 1`
abbrev pub lower : PoolAddressRow → Option PoolAddressRow → Option PoolAddressRow
lower r none = some r
lower r (some l) = if leb r.derivation_index l.derivation_index then some r else some l

-- The subquery of `claimLowestAvailable`.
unfoldable pub lowest_available : Text → Text → Text → List PoolAddressRow → Option PoolAddressRow
lowest_available tenant merchant chain [] = none
lowest_available tenant merchant chain (r ∷ rows) =
    let rest = lowest_available tenant merchant chain rows in
    if in_group tenant merchant chain r && same_state r.state PoolState.available
    then lower r rest
    else rest

abbrev pub reserved_for : Text → PoolAddressRow → PoolAddressRow
reserved_for invoice r = record r { state = PoolState.reserved; invoice_id = some invoice }

abbrev pub claim_row : Text → Text → PoolAddressRow → PoolAddressRow
claim_row id invoice r = if same r.id id then reserved_for invoice r else r

unfoldable pub claim_available :
    Text → Text → Text → Text → List PoolAddressRow → Option PoolAddressRow × List PoolAddressRow
unfolding lowest_available
claim_available tenant merchant chain invoice rows =
    elim (lowest_available tenant merchant chain rows) [
      | none ↦ (none, rows)
      | some l ↦ (some (reserved_for invoice l), map (claim_row l.id invoice) rows)
    ]

-- `COALESCE(MAX(derivation_index) + 1, 0)`, over the whole chain.
unfoldable pub next_index : Text → List PoolAddressRow → ℕ
next_index chain [] = 0
next_index chain (r ∷ rows) =
    let rest = next_index chain rows in
    if same r.chain chain && leb rest r.derivation_index then suc r.derivation_index else rest

abbrev pub new_row : Text → NewPoolAddress → PoolAddressRow
new_row id new = record {
  id = id;
  tenant = new.tenant;
  merchant = new.merchant;
  chain = new.chain;
  derivation_index = new.derivation_index;
  address = new.address;
  state = PoolState.reserved;
  invoice_id = some new.invoice_id;
  cooldown_until = none;
  gather_strategy = new.gather_strategy;
}

-- Whether a unique key of the table has the values of the row.
unfoldable pub violates : PoolAddressRow → List PoolAddressRow → Bool
violates n [] = false
violates n (r ∷ rows) =
    let rest = violates n rows in
    if same r.id n.id
    then true
    else if stands_at n.chain n.address r
    then true
    else if in_group n.tenant n.merchant n.chain r && (r.derivation_index == n.derivation_index)
    then true
    else rest

unfoldable pub insert_reserved :
    Text → NewPoolAddress → List PoolAddressRow → Result (PoolAddressRow × List PoolAddressRow)
unfolding violates
insert_reserved id new rows =
    throw_if (violates (new_row id new) rows) Error.constraint
    >> ok (new_row id new, new_row id new ∷ rows)

abbrev pub changed : PoolState → StateChange → PoolAddressRow → PoolAddressRow
changed to change r = record r {
  state = to;
  invoice_id = get_or change.invoice_id r.invoice_id;
  cooldown_until = get_or change.cooldown_until r.cooldown_until;
}

abbrev pub set_row :
    Text → Text → PoolState → PoolState → StateChange → PoolAddressRow → PoolAddressRow
set_row chain address from to change r =
    if stands_at chain address r && same_state r.state from then changed to change r else r

-- `.returning(…)`: the first row that is changed, as it is then.
abbrev pub transition :
    Text → Text → PoolState → PoolState → StateChange → List PoolAddressRow → Option PoolAddressRow
transition chain address from to change [] = none
transition chain address from to change (r ∷ rows) =
    if stands_at chain address r && same_state r.state from
    then some (changed to change r)
    else transition chain address from to change rows

unfoldable pub set_state :
    Text
    → Text
    → PoolState
    → PoolState
    → StateChange
    → List PoolAddressRow
    → Option PoolAddressRow × List PoolAddressRow
set_state chain address from to change rows =
    (transition chain address from to change rows, map (set_row chain address from to change) rows)

-- `cooldown_until <= now`, which null is not.
abbrev pub has_cooled : ℕ → PoolAddressRow → Bool
has_cooled now r = elim r.cooldown_until [
  | none ↦ false
  | some until ↦ same_state r.state PoolState.cooling && leb until now
]

abbrev pub free_cooled : ℕ → PoolAddressRow → PoolAddressRow
free_cooled now r =
    if has_cooled now r
    then record r { state = PoolState.available; invoice_id = none; cooldown_until = none }
    else r

abbrev pub count_cooled : ℕ → List PoolAddressRow → ℕ
count_cooled now [] = 0
count_cooled now (r ∷ rows) =
    let rest = count_cooled now rows in if has_cooled now r then suc rest else rest

unfoldable pub release_cooled : ℕ → List PoolAddressRow → ℕ × List PoolAddressRow
release_cooled now rows = (count_cooled now rows, map (free_cooled now) rows)

-- `ORDER BY derivation_index`
abbrev pub insert_by_index : PoolAddressRow → List PoolAddressRow → List PoolAddressRow
insert_by_index r [] = r ∷ []
insert_by_index r (q ∷ rows) =
    if leb r.derivation_index q.derivation_index then r ∷ q ∷ rows else q ∷ insert_by_index r rows

unfoldable pub addresses_for_merchant :
    Text → Text → Text → List PoolAddressRow → List PoolAddressRow
addresses_for_merchant tenant merchant chain [] = []
addresses_for_merchant tenant merchant chain (r ∷ rows) =
    let rest = addresses_for_merchant tenant merchant chain rows in
    if in_group tenant merchant chain r then insert_by_index r rest else rest

-- `ACTIVE_STATES`: all but available.
unfoldable pub active_addresses : Text → List PoolAddressRow → List PoolAddressRow
active_addresses chain [] = []
active_addresses chain (r ∷ rows) =
    let rest = active_addresses chain rows in
    if same r.chain chain && not (same_state r.state PoolState.available) then r ∷ rest else rest

-- ===== src/Pool/Examples.antt =====
-- The pool of addresses on concrete tables.
use mathlib.Core.List.{Memᴰ}
use cixtech.Pool.Config.Approved.{IsSupported, set_active-ok}
use cixtech.Pool.Config.Approved.{IsSupported, set_active-ok}
use cixtech.Pool.Config.{
  SetActive, set_active, upsert, GatherConfigRow, active_for, row_of, row_at, gather_strategies,
}
use cixtech.Prelude.{
  ℕ, pos, ◌+ℤ◌, ◌≤ℤ◌, ◌<ℤ◌, Text, codes, Text-discrete, same, if◌then◌else◌, true, false, List, [],
  ◌∷◌, none, some, ◌⊎◌, inr, ◌≡◌, refl, arith, Option, ◌≢◌, ◌&&◌,
}
use cixtech.Errors.{ok, err}
use cixtech.Pool.Types.{PoolState, PoolAction, GatherStrategyKind, PoolAddressRow, GatheredLeg}
use cixtech.Pool.Sql.{find_by_address, changed, reserved_for}
use cixtech.Pool.Sql.Unique.{IsTable, by_id}
use cixtech.Pool.Manager.{AddressDeriver, PoolManagerConfig, assign, apply, no_change}
use cixtech.Pool.Manager.Assign.{assign-fresh, assign-kept}
use cixtech.Pool.Manager.Apply.{IsMoved, apply-Step}
use cixtech.Pool.Gather.{AddressBalance, gather, insufficient}
use cixtech.Pool.Gather.Legs.{legs_total, held, AllCovered}
use cixtech.Pool.Gather.Correct.{gather-enough, gather_refuses}
use cixtech.Pool.Lease.{acquire, release, acquire_excludes}

abbrev tron : Text
tron = codes "TRON"

abbrev row : Text → ℕ → Text → PoolState → PoolAddressRow
row id index address state = record {
  id = id;
  tenant = codes "t";
  merchant = codes "m";
  chain = tron;
  derivation_index = index;
  address = address;
  state = state;
  invoice_id = none;
  cooldown_until = none;
  gather_strategy = GatherStrategyKind.eoa_fund_transfer;
}

abbrev busy : PoolAddressRow
busy = row (codes "a") 0 (codes "T0") PoolState.reserved

abbrev free : PoolAddressRow
free = row (codes "b") 1 (codes "T1") PoolState.available

abbrev rows : List PoolAddressRow
rows = busy ∷ free ∷ []

rows-IsTable : IsTable rows
unfolding by_id find_by_address Text-discrete
rows-IsTable = (refl, refl, (refl, refl, tt))

abbrev derive : AddressDeriver
derive chain xpub index = index ∷ xpub

abbrev config : PoolManagerConfig
config = record { cooldown_ms = 60; active_strategy = none }

abbrev claimed : List PoolAddressRow
claimed = busy ∷ reserved_for (codes "i9") free ∷ []

assigned :
    assign derive config (codes "c") (codes "t") (codes "m") tron (codes "i9") (codes "x") rows
    ≡ ok (codes "T1", claimed)
unfolding assign Text-discrete
assigned = refl

assign-fresh_example :
    ((find_by_address tron (codes "T1") rows ≡ none)
      ⊎ ((r : PoolAddressRow) × (find_by_address tron (codes "T1") rows ≡ some r)
          × (r.state ≡ PoolState.available)))
    × ((r : PoolAddressRow) × (find_by_address tron (codes "T1") claimed ≡ some r)
        × (r.state ≡ PoolState.reserved)
        × (r.invoice_id ≡ some (codes "i9"))
        × (r.tenant ≡ codes "t")
        × (r.merchant ≡ codes "m"))
assign-fresh_example =
    assign-fresh derive config (codes "c") (codes "t") (codes "m") tron (codes "i9") (codes "x")
      rows claimed (codes "T1") rows-IsTable assigned

busy_found : find_by_address tron (codes "T0") rows ≡ some busy
unfolding find_by_address Text-discrete
busy_found = refl

assign-kept_example : find_by_address tron (codes "T0") claimed ≡ some busy
assign-kept_example =
    assign-kept derive config (codes "c") (codes "t") (codes "m") tron (codes "i9") (codes "x") rows
      claimed (codes "T1") tron (codes "T0") busy rows-IsTable assigned busy_found (λ e. cc)

abbrev paid : PoolAddressRow
paid = changed PoolState.in_use no_change busy

detected :
    apply PoolAction.detect no_change tron (codes "T0") rows rows ≡ ok (paid, paid ∷ free ∷ [])
unfolding apply Text-discrete
detected = refl

apply-Step_example :
    (r : PoolAddressRow) × (find_by_address tron (codes "T0") rows ≡ some r)
    × IsMoved PoolAction.detect no_change r paid
    × (find_by_address tron (codes "T0") (paid ∷ free ∷ []) ≡ some paid)
apply-Step_example =
    apply-Step PoolAction.detect no_change tron (codes "T0") rows rows (paid ∷ free ∷ []) paid
      rows-IsTable detected

-- 30 at the first address, 50 at the others.
abbrev balance : AddressBalance
balance chain address asset = if same address (codes "T0") then pos 30 else pos 50

abbrev usdt : Text
usdt = codes "USDT"

holds : pos 70 ≤ℤ held balance tron usdt rows
unfolding Text-discrete ◌+ℤ◌
holds = omega arith

gather-enough_example :
    (legs : List GatheredLeg) × (gather balance tron usdt (pos 70) rows ≡ ok legs)
    × (legs_total legs ≡ pos 70)
    × AllCovered balance tron usdt legs
gather-enough_example = gather-enough balance tron usdt (pos 70) rows (omega arith) holds

lacks : held balance tron usdt rows <ℤ pos 90
unfolding Text-discrete ◌+ℤ◌
lacks = omega arith

gather_refuses_example : gather balance tron usdt (pos 90) rows ≡ err insufficient
gather_refuses_example = gather_refuses balance tron usdt (pos 90) rows (inr lacks)

abbrev key : Text
key = codes "t:m:TRON"

got : (acquire 100 key (codes "w1") 7 []).0 ≡ true
unfolding acquire
got = refl

others : same (codes "w1") (codes "w2") ≡ false
unfolding Text-discrete
others = refl

acquire_excludes_example :
    (acquire 50 key
      (codes "w3")
      107
      (release key (codes "w2") (acquire 100 key (codes "w1") 7 []).1)).0
    ≡ false
acquire_excludes_example =
    acquire_excludes 100 50 key (codes "w1") (codes "w2") (codes "w3") 7 107 [] got (omega arith)
      others

-- FORWARDER for one tenant, where the chain has EOA_FUND_TRANSFER.
abbrev requested : SetActive
requested = record {
  chain = codes "TRON";
  tenant = some (codes "t");
  strategy = codes "FORWARDER";
  updated_by = codes "alice";
  approved_by = codes "bob";
}

abbrev family_of : Text → Option Text
family_of chain = some (codes "TVM")

activated :
    (after : List GatherConfigRow) × (set_active family_of 9 requested []
      ≡ ok (row_of 9 requested, after))
unfolding set_active upsert Text-discrete
activated = (_, refl)

set_active-ok_example :
    (requested.updated_by ≢ [])
    × (requested.updated_by ≢ requested.approved_by)
    × Memᴰ requested.strategy gather_strategies
    × IsSupported requested.strategy (family_of requested.chain)
    × (active_for requested.chain (codes "t") (codes "EOA_FUND_TRANSFER") activated.0
        ≡ requested.strategy)
    × ((chain tenant : Text)
        → (same requested.chain chain && same (codes "t") tenant) ≡ false
        → row_at chain tenant activated.0 ≡ row_at chain tenant [])
set_active-ok_example =
    set_active-ok family_of 9 requested [] activated.0 (row_of 9 requested)
      (codes "EOA_FUND_TRANSFER") activated.1

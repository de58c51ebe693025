-- ===== src/Pool/Gather.antt =====
-- backend/src/attribution/pool-gatherer.ts. The balances are what the port `AddressBalance` reads
-- during the call.
pub mod Legs
pub mod Correct
use cixtech.Prelude.{ℤ, pos, ◌+ℤ◌, ◌-ℤ◌, leb_ℤ, ltb_ℤ, Text, if◌then◌else◌, List, [], ◌∷◌}
use cixtech.Errors.{Result, ok, err, Error, ErrorCode, ◌>>=◌, ◌>>◌, throw_if}
use cixtech.Pool.Types.{PoolAddressRow, GatheredSource, GatheredLeg}

-- The balance of an address, by chain, address and asset.
abbrev pub AddressBalance : Type 0
AddressBalance = Text → Text → Text → ℤ

abbrev pub insufficient : Error
insufficient = Error.app ErrorCode.pool_insufficient_funds

abbrev pub source_of : PoolAddressRow → GatheredSource
source_of a = record {
  address = a.address;
  derivation_index = a.derivation_index;
  gather_strategy = a.gather_strategy;
}

unfoldable pub gather_single :
    AddressBalance → Text → Text → ℤ → List PoolAddressRow → Result GatheredSource
gather_single balance chain asset amount [] = err insufficient
gather_single balance chain asset amount (a ∷ addresses) =
    let rest = gather_single balance chain asset amount addresses in
    if leb_ℤ amount (balance chain a.address asset) then ok (source_of a) else rest

pub record Funded : Type 0 where
  pub source : GatheredSource
  pub balance : ℤ

unfoldable pub funded_of : AddressBalance → Text → Text → List PoolAddressRow → List Funded
funded_of balance chain asset [] = []
funded_of balance chain asset (a ∷ addresses) =
    let rest = funded_of balance chain asset addresses in
    let held = balance chain a.address asset in
    if ltb_ℤ (pos 0) held then record { source = source_of a; balance = held } ∷ rest else rest

-- `funded.sort(…)`: the largest balance first, equal ones in their order.
unfoldable pub place : Funded → List Funded → List Funded
place f [] = f ∷ []
place f (g ∷ gs) = if leb_ℤ g.balance f.balance then f ∷ g ∷ gs else g ∷ place f gs

unfoldable pub sort : List Funded → List Funded
unfolding place
sort [] = []
sort (f ∷ fs) = place f (sort fs)

abbrev pub leg : Funded → ℤ → GatheredLeg
leg f take = record { source = f.source; amount_base_units = take }

-- The loop over the funded addresses: the legs, and what remains of the amount.
unfoldable pub take_legs : ℤ → List Funded → List GatheredLeg × ℤ
take_legs remaining [] = ([], remaining)
take_legs remaining (f ∷ fs) =
    let take = if ltb_ℤ f.balance remaining then f.balance else remaining in
    let rest = take_legs (remaining -ℤ take) fs in
    if leb_ℤ remaining (pos 0) then ([], remaining) else (leg f take ∷ rest.0, rest.1)

unfoldable pub gather :
    AddressBalance → Text → Text → ℤ → List PoolAddressRow → Result (List GatheredLeg)
unfolding funded_of sort place take_legs
gather balance chain asset amount addresses =
    let taken = take_legs amount (sort (funded_of balance chain asset addresses)) in
    throw_if (leb_ℤ amount (pos 0)) insufficient
    >> throw_if (ltb_ℤ (pos 0) taken.1) insufficient
    >> ok taken.0

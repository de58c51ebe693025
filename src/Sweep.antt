-- ===== src/Sweep.antt =====
-- backend/src/chains/treasury/fee-sweep-planner.ts: what may be swept to the treasury as fees.
pub mod Like
pub mod Within
pub mod Suspense
pub mod Examples
use cixtech.Prelude.{
  ℕ, ℤ, pos, ◌+ℤ◌, ◌-ℤ◌, ltb_ℤ, leb_ℤ, Text, codes, same, starts_with, if◌then◌else◌, get_or, ◌&&◌,
  ◌||◌, ◌++◌, Bool, true, false, List, [], ◌∷◌, suc,
}
use cixtech.Prelude.Dict.{Dict, lookup}
use cixtech.Errors.{Result, ok, err, ◌>>=◌}
use cixtech.Ledger.Accounts.{normal_balance}
use cixtech.Ledger.Sql.{BalanceRow}
use cixtech.Pool.Types.{PoolAddressRow, GatheredSource}
use cixtech.Pool.Gather.{AddressBalance, source_of}
use cixtech.Sweep.Like.{like}

pub record FeeSweepLeg : Type 0 where
  pub source : GatheredSource
  pub amount_base_units : ℤ

pub record FeeSweepPlan : Type 0 where
  pub tenant : Text
  pub merchant : Text
  pub chain : Text
  pub asset : Text
  pub claim_base_units : ℤ
  pub legs : List FeeSweepLeg
  pub total_base_units : ℤ
  pub skipped_dust : ℕ

-- The rows that `sweepBalances.forClaim` of queries/infra.queries.ts selects.
abbrev pub for_claim : Text → Text → Text → BalanceRow → Bool
for_claim asset merchant tenant r =
    same r.asset asset
    && (like (codes "pool_addr:%:" ++ merchant) r.account
        || like (codes "merchant\\_%:" ++ (tenant ++ (codes ":" ++ merchant))) r.account)

-- The loop of `claim`: what the pool has less what is owed, over the surplus so far.
unfoldable pub surplus : Text → Text → Text → ℤ → List BalanceRow → Result ℤ
unfolding normal_balance
surplus tenant merchant asset so_far [] = ok so_far
surplus tenant merchant asset so_far (r ∷ rows) =
    let counted = normal_balance r.account r.amount >>= λ magnitude.
    surplus tenant merchant asset
      (if starts_with r.account (codes "pool_addr:")
        then so_far +ℤ magnitude
        else so_far -ℤ magnitude)
      rows in
    let rest = surplus tenant merchant asset so_far rows in
    if for_claim asset merchant tenant r then counted else rest

unfoldable pub claim : Text → Text → Text → List BalanceRow → Result ℤ
unfolding surplus
claim tenant merchant asset rows = do
  left ← surplus tenant merchant asset (pos 0) rows
  ok (if ltb_ℤ (pos 0) left then left else pos 0)

-- What is on an address and not spoken for.
abbrev pub free_on : AddressBalance → Text → Text → Dict ℤ → Text → ℤ
free_on balance chain asset reserved address =
    balance chain address asset -ℤ get_or (lookup address reserved) (pos 0)

-- The loop of `plan`: the legs, and the number of legs left out as dust.
unfoldable pub plan_legs :
    ℤ → AddressBalance → Text → Text → Dict ℤ → ℤ → List PoolAddressRow → List FeeSweepLeg × ℕ
unfolding lookup
plan_legs dust balance chain asset reserved remaining [] = ([], 0)
plan_legs dust balance chain asset reserved remaining (a ∷ addresses) =
    let free = free_on balance chain asset reserved a.address in
    let take = if ltb_ℤ free remaining then free else remaining in
    let passed = plan_legs dust balance chain asset reserved remaining addresses in
    let taken = plan_legs dust balance chain asset reserved (remaining -ℤ take) addresses in
    if leb_ℤ remaining (pos 0)
    then ([], 0)
    else if leb_ℤ free (pos 0)
    then passed
    else if ltb_ℤ take dust
    then (passed.0, suc passed.1)
    else (record { source = source_of a; amount_base_units = take } ∷ taken.0, taken.1)

abbrev pub legs_total : List FeeSweepLeg → ℤ
legs_total [] = pos 0
legs_total (l ∷ legs) = l.amount_base_units +ℤ legs_total legs

abbrev pub planned : (tenant merchant chain asset : Text) → ℤ → List FeeSweepLeg × ℕ → FeeSweepPlan
planned tenant merchant chain asset claimed taken = record {
  tenant = tenant;
  merchant = merchant;
  chain = chain;
  asset = asset;
  claim_base_units = claimed;
  legs = taken.0;
  total_base_units = legs_total taken.0;
  skipped_dust = taken.1;
}

unfoldable pub plan :
    ℤ
    → AddressBalance
    → (tenant merchant chain asset : Text) → Dict ℤ
    → List BalanceRow
    → List PoolAddressRow
    → Result FeeSweepPlan
unfolding claim plan_legs
plan dust balance tenant merchant chain asset reserved rows addresses =
    claim tenant merchant asset rows >>= λ claimed. ok (
      if leb_ℤ claimed (pos 0)
      then planned tenant merchant chain asset claimed ([], 0)
      else planned tenant merchant chain asset claimed
          (plan_legs dust balance chain asset reserved claimed addresses))

-- ===== src/Sweep/Examples.antt =====
-- The planner on concrete balances.
use cixtech.Prelude.{
  ℤ, pos, neg, ◌+ℤ◌, ◌-ℤ◌, ◌≤ℤ◌, Text, codes, Text-discrete, List, [], ◌∷◌, ◌≡◌, refl, none,
}
use cixtech.Errors.{ok}
use cixtech.Ledger.Accounts.{account_type_of, normal_balance}
use cixtech.Ledger.Sql.{BalanceRow}
use cixtech.Pool.Types.{PoolState, GatherStrategyKind, PoolAddressRow}
use cixtech.Pool.Gather.{AddressBalance}
use cixtech.Sweep.{FeeSweepPlan, claim, plan, legs_total}
use cixtech.Sweep.Like.{like}
use cixtech.Sweep.Within.{IsWithin, AllFree, plan-AllFree}
use cixtech.Sweep.Suspense.{suspense_row, claim-suspense_row}

abbrev usdt : Text
usdt = codes "USDT"

abbrev balance_row : Text → ℤ → BalanceRow
balance_row account amount = record {
  account = account;
  asset = usdt;
  amount = amount;
  version = 1;
}

-- A deposit of 100 with a fee of 1.
abbrev rows : List BalanceRow
rows =
    balance_row (codes "pool_addr:TRON:m") (pos 100)
    ∷ balance_row (codes "merchant_available:t:m") (neg (pos 99))
    ∷ []

abbrev address : PoolAddressRow
address = record {
  id = codes "a";
  tenant = codes "t";
  merchant = codes "m";
  chain = codes "TRON";
  derivation_index = 0;
  address = codes "T0";
  state = PoolState.cooling;
  invoice_id = none;
  cooldown_until = none;
  gather_strategy = GatherStrategyKind.eoa_fund_transfer;
}

abbrev balance : AddressBalance
balance chain at asset = pos 100

swept :
    (p : FeeSweepPlan) × (plan
        (pos 0)
        balance
        (codes "t")
        (codes "m")
        (codes "TRON")
        usdt
        []
        rows
        (address ∷ [])
      ≡ ok p)
unfolding plan like account_type_of normal_balance Text-discrete ◌+ℤ◌ ◌-ℤ◌ neg
swept = (_, refl)

plan-AllFree_example :
    (claim (codes "t") (codes "m") usdt rows ≡ ok swept.0.claim_base_units)
    × (swept.0.total_base_units ≡ legs_total swept.0.legs)
    × (swept.0.total_base_units ≤ℤ swept.0.claim_base_units)
    × AllFree balance (codes "TRON") usdt [] swept.0.legs
    × ((at : Text) → IsWithin balance (codes "TRON") usdt [] at swept.0.legs)
plan-AllFree_example =
    plan-AllFree (pos 0) balance (codes "t") (codes "m") (codes "TRON") usdt [] rows (address ∷ [])
      swept.0 (refl, tt) swept.1

-- The fee of 1 is all that is claimed.
claimed : claim (codes "t") (codes "m") usdt rows ≡ ok (pos 1)
unfolding claim like account_type_of normal_balance Text-discrete ◌+ℤ◌ ◌-ℤ◌ neg
claimed = refl

claim-suspense_row_example :
    claim (codes "t") (codes "m") usdt (suspense_row (codes "t") usdt (neg (pos 70)) 1 ∷ rows)
    ≡ claim (codes "t") (codes "m") usdt rows
claim-suspense_row_example =
    claim-suspense_row (codes "t") (codes "m") usdt (codes "t") usdt (neg (pos 70)) 1 rows

-- ===== src/Sweep/Suspense.antt =====
-- The claim and the suspense account.
use cixtech.Prelude.{ℕ, ℤ, Text, same, false, Bool-cases, inl, inr, List, ◌∷◌, ◌≡◌}
use cixtech.Ledger.Accounts.{compliance_suspense}
use cixtech.Ledger.Sql.{BalanceRow}
use cixtech.Sweep.Like.{like}
use cixtech.Sweep.{for_claim, claim}

abbrev pub suspense_row : Text → Text → ℤ → ℕ → BalanceRow
suspense_row tenant asset amount version = record {
  account = compliance_suspense tenant;
  asset = asset;
  amount = amount;
  version = version;
}

for_claim-suspense_row :
    (asset merchant tenant holder other : Text) (amount : ℤ) (version : ℕ)
    → for_claim asset merchant tenant (suspense_row holder other amount version) ≡ false
unfolding like compliance_suspense
for_claim-suspense_row asset merchant tenant holder other amount version =
    elim (Bool-cases (same other asset)) [ inl hit ↦ rw hit | inr miss ↦ rw miss ]

-- What is owed on a suspense account does not lower the claim: with it or without it, the planner
-- takes the same surplus for fees.
pub claim-suspense_row :
    (tenant merchant asset holder other : Text) (amount : ℤ) (version : ℕ) (rows : List BalanceRow)
    → claim tenant merchant asset (suspense_row holder other amount version ∷ rows)
      ≡ claim tenant merchant asset rows
unfolding claim
claim-suspense_row tenant merchant asset holder other amount version rows =
    rw (for_claim-suspense_row asset merchant tenant holder other amount version)

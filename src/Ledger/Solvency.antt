-- ===== src/Ledger/Solvency.antt =====
-- backend/src/ledger/solvency.ts.
use cixtech.Prelude.{ℤ, pos, leb_ℤ, Text, if◌then◌else◌, get_or, not, Bool, List, [], ◌∷◌}
use cixtech.Prelude.Dict.{lookup}
use cixtech.Ledger.Accounts.{AccountType}
use cixtech.Ledger.Store.{TotalsByType}

pub record AssetSolvency : Type 0 where
  pub asset : Text
  pub assets : ℤ
  pub liabilities : ℤ

unfoldable pub sum_for_asset : TotalsByType → AccountType → Text → ℤ
sum_for_asset totals type asset = get_or (lookup asset (totals type)) (pos 0)

unfoldable pub asset_solvency : TotalsByType → Text → AssetSolvency
unfolding sum_for_asset
asset_solvency totals asset = record {
  asset = asset;
  assets = sum_for_asset totals AccountType.asset asset;
  liabilities = sum_for_asset totals AccountType.liability asset;
}

abbrev pub is_solvent : AssetSolvency → Bool
is_solvent s = leb_ℤ s.liabilities s.assets

unfoldable pub solvency_drift : TotalsByType → List Text → List AssetSolvency
unfolding asset_solvency
solvency_drift totals [] = []
solvency_drift totals (asset ∷ assets) =
    let rest = solvency_drift totals assets in
    let s = asset_solvency totals asset in if not (is_solvent s) then s ∷ rest else rest

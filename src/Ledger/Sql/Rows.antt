-- ===== src/Ledger/Sql/Rows.antt =====
-- The balance table under `applyDelta`.
use cixtech.Prelude.{
  ℤ, pos, ◌+ℤ◌, int_laws, Text, same, if◌then◌else◌, ◌&&◌, List, [], ◌∷◌, ◌≡◌, refl, arith, get_or,
  none, false,
}
use cixtech.Ledger.Sql.{Delta, BalanceRow, apply_delta, apply_deltas, for_account_asset}

abbrev pub amount_at : Text → Text → List BalanceRow → ℤ
amount_at k a rows = get_or (for_account_asset k a rows) (pos 0)

pub amount_at-apply_delta :
    (k a : Text) (d : Delta) (rows : List BalanceRow)
    → amount_at k a (apply_delta d rows)
      ≡ amount_at k a rows +ℤ (if same d.account k && same d.asset a then d.delta else pos 0)
unfolding apply_delta
amount_at-apply_delta k a d [] = grind int_laws
amount_at-apply_delta k a d (r ∷ rows) = grind (int_laws, amount_at-apply_delta k a d rows)

-- One row for each account and asset, as the primary key demands.
abbrev pub UniqueRows : List BalanceRow → Type 0
UniqueRows [] = Unit {0}
UniqueRows (r ∷ rows) = (for_account_asset r.account r.asset rows ≡ none) × UniqueRows rows

for_account_asset-apply_delta :
    (k a : Text) (d : Delta) (rows : List BalanceRow)
    → for_account_asset k a rows ≡ none
    → (same d.account k && same d.asset a) ≡ false
    → for_account_asset k a (apply_delta d rows) ≡ none
unfolding apply_delta
for_account_asset-apply_delta k a d [] h n = ground arith
for_account_asset-apply_delta k a d (r ∷ rows) h n =
    ground (arith, for_account_asset-apply_delta k a d rows)

apply_delta-UniqueRows :
    (d : Delta) (rows : List BalanceRow) → UniqueRows rows → UniqueRows (apply_delta d rows)
unfolding apply_delta
apply_delta-UniqueRows d [] h = (refl, tt)
apply_delta-UniqueRows d (r ∷ rows) h = ground (
  arith,
  apply_delta-UniqueRows d rows h.1,
  for_account_asset-apply_delta r.account r.asset d rows h.0,
)

pub apply_deltas-UniqueRows :
    (ds : List (Text × Delta)) (rows : List BalanceRow)
    → UniqueRows rows
    → UniqueRows (apply_deltas ds rows)
unfolding apply_deltas
apply_deltas-UniqueRows [] rows h = h
apply_deltas-UniqueRows ((_, d) ∷ ds) rows h =
    apply_deltas-UniqueRows ds (apply_delta d rows) (apply_delta-UniqueRows d rows h)

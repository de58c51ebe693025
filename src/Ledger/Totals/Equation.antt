-- ===== src/Ledger/Totals/Equation.antt =====
-- The accounting equation of the totals by type.
use cixtech.Prelude.{
  ℤ, pos, neg, ◌+ℤ◌, int_laws, Text, same, if◌then◌else◌, get_or, Bool, true, false, Bool-cases,
  inl, inr, List, [], ◌∷◌, ◌≡◌, refl, ◌&&◌, ◌∙◌, zero_+ℤ,
}
use cixtech.Prelude.Dict.{lookup, lookup-insert}
use cixtech.Errors.{ok, >>=-eq-ok}
use cixtech.Ledger.Types.{Posting}
use cixtech.Ledger.Net.{signed, net_of_asset}
use cixtech.Ledger.Accounts.{AccountType, account_type_of}
use cixtech.Ledger.Store.{TotalsByType}
use cixtech.Ledger.Solvency.{sum_for_asset}
use cixtech.Ledger.Memory
use cixtech.Ledger.Sql
use cixtech.Ledger.Totals.{
  AccountNet, same_type, normal_positive, add_total, totals_from, no_totals, totals_of,
}

-- The net of an asset over all rows.
abbrev asset_sum : Text → List AccountNet → ℤ
asset_sum a [] = pos 0
asset_sum a (r ∷ rs) = (if same r.asset a then r.amount else pos 0) +ℤ asset_sum a rs

-- Assets and expenses less liabilities and revenue.
abbrev pub imbalance : TotalsByType → Text → ℤ
imbalance t a =
    sum_for_asset t AccountType.asset a
    +ℤ sum_for_asset t AccountType.expense a
    +ℤ neg (sum_for_asset t AccountType.liability a)
    +ℤ neg (sum_for_asset t AccountType.revenue a)

sum_for_asset-add_total :
    (type u : AccountType) (asset a : Text) (n : ℤ) (t : TotalsByType)
    → sum_for_asset (add_total type asset n t) u a
      ≡ sum_for_asset t u a +ℤ (if same_type type u && same asset a then n else pos 0)
unfolding sum_for_asset add_total
sum_for_asset-add_total type u asset a n t =
    grind (int_laws, lookup-insert asset a (get_or (lookup asset (t u)) (pos 0) +ℤ n) (t u))

imbalance-add_total :
    (type : AccountType) (asset a : Text) (n : ℤ) (t : TotalsByType)
    → imbalance (add_total type asset (normal_positive type n) t) a
      ≡ imbalance t a +ℤ (if same asset a then n else pos 0)
imbalance-add_total type asset a n t = elim (Bool-cases (same asset a)) [
  | inl hit ↦ by_type true hit type
  | inr miss ↦ by_type false miss type
]
  where
    by_type :
        (b : Bool)
        → same asset a ≡ b
        → (u : AccountType)
        → imbalance (add_total u asset (normal_positive u n) t) a
          ≡ imbalance t a +ℤ (if same asset a then n else pos 0)
    by_type true h AccountType.liability = simp (sum_for_asset-add_total, h) (omega int_laws)
    by_type true h AccountType.asset = simp (sum_for_asset-add_total, h) (omega int_laws)
    by_type true h AccountType.revenue = simp (sum_for_asset-add_total, h) (omega int_laws)
    by_type true h AccountType.expense = simp (sum_for_asset-add_total, h) (omega int_laws)
    by_type false h AccountType.liability = simp (sum_for_asset-add_total, h) (omega int_laws)
    by_type false h AccountType.asset = simp (sum_for_asset-add_total, h) (omega int_laws)
    by_type false h AccountType.revenue = simp (sum_for_asset-add_total, h) (omega int_laws)
    by_type false h AccountType.expense = simp (sum_for_asset-add_total, h) (omega int_laws)

imbalance-totals_from :
    (t u : TotalsByType) (rs : List AccountNet) (a : Text)
    → totals_from t rs ≡ ok u
    → imbalance u a ≡ imbalance t a +ℤ asset_sum a rs
unfolding totals_from
imbalance-totals_from t u [] a h = let e : t ≡ u = cc in rw e (omega int_laws)
imbalance-totals_from t u (r ∷ rs) a h =
    let (type, q, rest) =
      >>=-eq-ok (account_type_of r.account)
        (λ type. totals_from (add_total type r.asset (normal_positive type r.amount) t) rs) h in
    rw
      (
        imbalance-totals_from (add_total type r.asset (normal_positive type r.amount) t) u rs a
            rest,
        imbalance-add_total type r.asset a r.amount t,
      )
      (omega int_laws)

-- The totals by type are out of balance by exactly what the rows are.
imbalance-totals_of :
    (t : TotalsByType) (rs : List AccountNet) (a : Text)
    → totals_of rs ≡ ok t
    → imbalance t a ≡ asset_sum a rs
unfolding totals_of sum_for_asset lookup
imbalance-totals_of t rs a h = rw (imbalance-totals_from no_totals t rs a h) (omega int_laws)

asset_sum-account_nets :
    (a : Text) (ps : List Posting) → asset_sum a (Memory.account_nets ps) ≡ net_of_asset a ps
unfolding net_of_asset
asset_sum-account_nets a [] = refl
asset_sum-account_nets a (p ∷ ps) = rw (asset_sum-account_nets a ps)

asset_sum-add_net :
    (a : Text) (p : Posting) (rs : List AccountNet)
    → asset_sum a (Sql.add_net p rs)
      ≡ asset_sum a rs +ℤ (if same p.asset a then signed p else pos 0)
asset_sum-add_net a p [] = grind int_laws
asset_sum-add_net a p (r ∷ rs) = grind (int_laws, asset_sum-add_net a p rs)

asset_sum-net_by_account_asset :
    (a : Text) (ps : List Posting) (rs : List AccountNet)
    → asset_sum a (Sql.net_by_account_asset rs ps) ≡ asset_sum a rs +ℤ net_of_asset a ps
unfolding Sql.net_by_account_asset net_of_asset
asset_sum-net_by_account_asset a [] rs = omega int_laws
asset_sum-net_by_account_asset a (p ∷ ps) rs =
    rw (asset_sum-net_by_account_asset a ps (Sql.add_net p rs), asset_sum-add_net a p rs)
      (omega int_laws)

-- Both stores report totals whose imbalance in an asset is the net of that asset over all postings.
imbalance-Memory :
    (m : Memory.MemoryLedger) (t : TotalsByType) (a : Text)
    → Memory.totals_by_type m ≡ ok t
    → imbalance t a ≡ net_of_asset a m.postings
unfolding Memory.totals_by_type
imbalance-Memory m t a h =
    imbalance-totals_of t (Memory.account_nets m.postings) a h ∙ asset_sum-account_nets a m.postings

pub imbalance-Sql :
    (db : Sql.SqlLedger) (t : TotalsByType) (a : Text)
    → Sql.totals_by_type db ≡ ok t
    → imbalance t a ≡ net_of_asset a (Sql.posted db.posting)
unfolding Sql.totals_by_type
imbalance-Sql db t a h =
    imbalance-totals_of t (Sql.net_by_account_asset [] (Sql.posted db.posting)) a h
    ∙ asset_sum-net_by_account_asset a (Sql.posted db.posting) []
    ∙ zero_+ℤ (net_of_asset a (Sql.posted db.posting))

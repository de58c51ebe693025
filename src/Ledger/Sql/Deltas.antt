-- ===== src/Ledger/Sql/Deltas.antt =====
-- The deltas of an entry, netted by account and asset, add up to the entry's nets. The collecting
-- key joins the account and the asset by the unit 0, so this rests on assets without it.
use cixtech.Prelude.{
  ℤ, pos, ◌+ℤ◌, int_laws, Text, Text-discrete, sym, ◌∙◌, same, if◌then◌else◌, ◌&&◌, List, [], ◌∷◌,
  ◌++◌, ◌≡◌, refl, arith,
}
use cixtech.Ledger.Types.{Posting}
use cixtech.Ledger.Net.{signed, net}
use cixtech.Ledger.Store.{NoNul, AreStorable, nul}
use cixtech.Ledger.Sql.Rows.{amount_at, amount_at-apply_delta}
use cixtech.Ledger.Sql.{
  Delta, BalanceRow, joined, add_delta, netted_by_account, apply_delta, apply_deltas,
}

nul_inside : (s t : Text) → ¬ NoNul (s ++ (nul ∷ t))
nul_inside [] t h = h.0 refl
nul_inside (c ∷ s) t h = nul_inside s t h.1

-- The joined key determines both parts.
joined-injective :
    (k j a b : Text) → joined k a ≡ joined j b → NoNul a → NoNul b → (k ≡ j) × (a ≡ b)
joined-injective [] [] a b e na nb = (refl, cc)
joined-injective [] (c ∷ j) a b e na nb = absurd (nul_inside j b (rw (← tail_eq) na))
  where
    tail_eq : a ≡ j ++ (nul ∷ b)
    tail_eq = cc
joined-injective (c ∷ k) [] a b e na nb = absurd (nul_inside k a (rw tail_eq nb))
  where
    tail_eq : k ++ (nul ∷ a) ≡ b
    tail_eq = cc
joined-injective (c ∷ k) (d ∷ j) a b e na nb =
    let (ek, ea) = joined-injective k j a b (cc) na nb in (cc, ea)

-- Each delta stands under its own key, and its asset is without the unit 0.
abbrev Keyed : List (Text × Delta) → Type 0
Keyed [] = Unit {0}
Keyed ((key, d) ∷ by) = (key ≡ joined d.account d.asset) × NoNul d.asset × Keyed by

-- What the deltas do to one account in one asset.
abbrev delta_net : Text → Text → List (Text × Delta) → ℤ
delta_net k a [] = pos 0
delta_net k a ((_, d) ∷ by) =
    (if same d.account k && same d.asset a then d.delta else pos 0) +ℤ delta_net k a by

add_delta-Keyed :
    (p : Posting) (by : List (Text × Delta)) → NoNul p.asset → Keyed by → Keyed (add_delta p by)
unfolding add_delta
add_delta-Keyed p [] n h = (refl, n, tt)
add_delta-Keyed p ((key, d) ∷ by) n h = ground (arith, add_delta-Keyed p by n h.2)

delta_net-add_delta :
    (k a : Text) (p : Posting) (by : List (Text × Delta))
    → NoNul p.asset
    → Keyed by
    → delta_net k a (add_delta p by)
      ≡ delta_net k a by +ℤ (if same p.account k && same p.asset a then signed p else pos 0)
unfolding add_delta
delta_net-add_delta k a p [] n h = omega int_laws
delta_net-add_delta k a p ((key, d) ∷ by) n h =
    elim (Text-discrete key (joined p.account p.asset)) [
      | yes hit ↦
          let (ek, ea) =
            joined-injective d.account p.account d.asset p.asset (sym h.0 ∙ hit) h.1 n in
          grind int_laws
      | no miss ↦ grind (int_laws, delta_net-add_delta k a p by n h.2)
    ]

delta_net-netted :
    (k a : Text) (ps : List Posting) (by : List (Text × Delta))
    → AreStorable ps
    → Keyed by
    → delta_net k a (netted_by_account by ps) ≡ delta_net k a by +ℤ net k a ps
unfolding netted_by_account net
delta_net-netted k a [] by n h = omega int_laws
delta_net-netted k a (p ∷ ps) by n h =
    rw
      (
        delta_net-netted k a ps (add_delta p by) n.1 (add_delta-Keyed p by n.0 h),
        delta_net-add_delta k a p by n.0 h,
      )
      (omega int_laws)

amount_at-apply_deltas :
    (k a : Text) (ds : List (Text × Delta)) (rows : List BalanceRow)
    → amount_at k a (apply_deltas ds rows) ≡ amount_at k a rows +ℤ delta_net k a ds
unfolding apply_deltas
amount_at-apply_deltas k a [] rows = omega int_laws
amount_at-apply_deltas k a ((_, d) ∷ ds) rows =
    rw (amount_at-apply_deltas k a ds (apply_delta d rows), amount_at-apply_delta k a d rows)
      (omega int_laws)

-- The balance table moves by the nets of the postings.
pub amount_at-append :
    (k a : Text) (ps : List Posting) (rows : List BalanceRow)
    → AreStorable ps
    → amount_at k a (apply_deltas (netted_by_account [] ps) rows) ≡ amount_at k a rows +ℤ net k a ps
amount_at-append k a ps rows n =
    rw (amount_at-apply_deltas k a (netted_by_account [] ps) rows, delta_net-netted k a ps [] n tt)
      (omega int_laws)

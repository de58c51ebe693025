-- ===== src/Pool/Config/Approved.antt =====
-- The change of a gather strategy.
use mathlib.Core.List.{Memᴰ}
use cixtech.Prelude.{
  same-true, same_refl, same-false, none, some, includes, Bool-cases, inl, inr, not, codes, ◌⊎◌, ℕ,
  Text, same, if◌then◌else◌, ◌&&◌, ◌||◌, Bool, true, false, List, [], ◌∷◌, Option, some, get_or, ap,
  ◌≡◌, ◌≢◌, refl, arith, sym,
}
use cixtech.Errors.{Result, ok, err, throw_if, ◌>>◌}
use cixtech.Pool.Config.{
  GatherConfigRow, SetActive, chain_wide, row_at, active_row, active_for, upsert, unknown_strategy,
  assert_supported, is_one_identity, row_of, set_active, gather_strategies,
}

row_at-upsert :
    (chain tenant : Text) (row : GatherConfigRow) (rows : List GatherConfigRow)
    → row_at chain tenant (upsert row rows) ≡ (
        if same row.chain chain && same row.tenant tenant
        then some row
        else row_at chain tenant rows)
unfolding row_at upsert
row_at-upsert chain tenant row [] = refl
row_at-upsert chain tenant row (r ∷ rows) = ground (arith, row_at-upsert chain tenant row rows)

throw_if-then :
    {A : Type 0} {y : A} (test : Bool) (rest : Result A)
    → (throw_if test unknown_strategy >> rest) ≡ ok y
    → (test ≡ false) × (rest ≡ ok y)
throw_if-then true rest h = absurd (cc)
throw_if-then false rest h = (refl, h)

supported-then :
    {A : Type 0} {x y : A} (test : Result (Unit {0}))
    → (test >> ok x) ≡ ok y
    → (test ≡ ok tt) × (x ≡ y)
supported-then (err e) h = absurd (cc)
supported-then (ok _) h = (refl, cc)

includes-Mem : (xs : List Text) (a : Text) → includes xs a ≡ true → Memᴰ a xs
includes-Mem [] a h = absurd (cc)
includes-Mem (x ∷ xs) a h = elim (Bool-cases (same x a)) [
  | inl here ↦ Memᴰ.head (sym (same-true x a here))
  | inr there ↦ Memᴰ.tail (includes-Mem xs a (rw there at h))
]

or-false : (a b : Bool) → (a || b) ≡ false → (a ≡ false) × (b ≡ false)
or-false true b h = absurd (cc)
or-false false b h = (refl, h)

two_identities :
    (i : SetActive)
    → is_one_identity i ≡ false
    → (i.updated_by ≢ []) × (i.updated_by ≢ i.approved_by)
two_identities i h =
    let (named, other) = or-false (same i.updated_by []) (same i.updated_by i.approved_by) h in
    (same-false i.updated_by [] named, same-false i.updated_by i.approved_by other)

not-false : (b : Bool) → not b ≡ false → b ≡ true
not-false true h = refl
not-false false h = absurd (cc)

-- The family of the chain is not known, or is not named, or EIP7702 is not asked of one that is not EVM.
abbrev pub IsSupported : Text → Option Text → Type 0
IsSupported strategy none = Unit {0}
IsSupported strategy (some family) =
    (family ≡ []) ⊎ (family ≡ codes "EVM") ⊎ (strategy ≢ codes "EIP7702")

assert_supported-IsSupported :
    (strategy : Text) (family : Option Text)
    → assert_supported strategy family ≡ ok tt
    → IsSupported strategy family
assert_supported-IsSupported strategy none h = tt
assert_supported-IsSupported strategy (some []) h = inl refl
assert_supported-IsSupported strategy (some (c ∷ family)) h =
    elim (Bool-cases (same (c ∷ family) (codes "EVM"))) [
      | inl evm ↦ inr (inl (same-true (c ∷ family) (codes "EVM") evm))
      | inr other ↦ elim (Bool-cases (same strategy (codes "EIP7702"))) [
        | inl wanted ↦ absurd (let e = rw (other, wanted) at h in cc)
        | inr unwanted ↦ inr (inr (same-false strategy (codes "EIP7702") unwanted))
      ]
    ]

-- A change of the strategy that is accepted names one of the known strategies and somebody who
-- requests it, under another name than the approver's, which may be empty. Where the family of the
-- chain is known and named, EIP7702 is accepted for EVM alone. The strategy is then the active one
-- for the chain and the tenant, or for the whole chain where no tenant is given, and the rows of all
-- other chains and tenants are as they were.
pub set_active-ok :
    (family_of : Text → Option Text) (now : ℕ) (i : SetActive) (rows after : List GatherConfigRow)
    (row : GatherConfigRow) (fallback : Text)
    → set_active family_of now i rows ≡ ok (row, after)
    → (i.updated_by ≢ [])
      × (i.updated_by ≢ i.approved_by)
      × Memᴰ i.strategy gather_strategies
      × IsSupported i.strategy (family_of i.chain)
      × (active_for i.chain (get_or i.tenant chain_wide) fallback after ≡ i.strategy)
      × ((chain tenant : Text)
          → (same i.chain chain && same (get_or i.tenant chain_wide) tenant) ≡ false
          → row_at chain tenant after ≡ row_at chain tenant rows)
unfolding set_active active_for active_row
set_active-ok family_of now i rows after row fallback h =
    let wanted = row_of now i in
    let supports = assert_supported i.strategy (family_of i.chain) in
    let finish = supports >> ok (wanted, upsert wanted rows) in
    let (listed, h0) =
      throw_if-then (not (includes gather_strategies i.strategy))
        (throw_if (is_one_identity i) unknown_strategy >> finish) h in
    let (distinct, h1) = throw_if-then (is_one_identity i) finish h0 in
    let (supported, same_rows) = supported-then supports h1 in
    let after_is : upsert wanted rows ≡ after =
      ap (λ (r : GatherConfigRow × List GatherConfigRow). r.1) same_rows in
    let (named, other) = two_identities i distinct in
    (
      named,
      other,
      includes-Mem gather_strategies i.strategy (not-false _ listed),
      assert_supported-IsSupported i.strategy (family_of i.chain) supported,
      rw
          (
            ← after_is,
            row_at-upsert i.chain (get_or i.tenant chain_wide) wanted rows,
            same_refl i.chain,
            same_refl (get_or i.tenant chain_wide),
          )
          refl,
      λ chain tenant differs.
          rw (← after_is) (rw (row_at-upsert chain tenant wanted rows, differs) refl),
    )

-- ===== src/Sweep/Within.antt =====
-- A plan stays within the claim and within what each address has free.
use cixtech.Prelude.{
  same-true, same, Bool, true, false, ◌⊎◌, ◌+ℤ◌, ℤ, pos, ◌-ℤ◌, ltb_ℤ, leb_ℤ, ◌≤ℤ◌, ◌<ℤ◌, int_laws,
  Text, if◌then◌else◌, Bool-cases, inl, inr, List, [], ◌∷◌, ◌≡◌, refl, arith,
}
use cixtech.Prelude.Dict.{Dict}
use cixtech.Errors.{ok, >>=-eq-ok}
use cixtech.Ledger.Sql.{BalanceRow}
use cixtech.Pool.Types.{PoolAddressRow}
use cixtech.Pool.Gather.{AddressBalance}
use cixtech.Sweep.{
  FeeSweepLeg, FeeSweepPlan, claim, surplus, free_on, plan_legs, legs_total, planned, plan,
}

-- Every leg takes something, and no more than its address has free.
abbrev pub AllFree : AddressBalance → Text → Text → Dict ℤ → List FeeSweepLeg → Type 0
AllFree balance chain asset reserved [] = Unit {0}
AllFree balance chain asset reserved (l ∷ legs) =
    ((pos 0 <ℤ l.amount_base_units)
      × (l.amount_base_units ≤ℤ free_on balance chain asset reserved l.source.address))
    × AllFree balance chain asset reserved legs

plan_legs-AllFree :
    (dust : ℤ) (balance : AddressBalance) (chain asset : Text) (reserved : Dict ℤ) (remaining : ℤ)
    (addresses : List PoolAddressRow)
    → pos 0 ≤ℤ remaining
    → let legs = (plan_legs dust balance chain asset reserved remaining addresses).0 in
      AllFree balance chain asset reserved legs × (legs_total legs ≤ℤ remaining)
unfolding plan_legs
plan_legs-AllFree dust balance chain asset reserved remaining [] h = (tt, h)
plan_legs-AllFree dust balance chain asset reserved remaining (a ∷ addresses) h =
    let free = free_on balance chain asset reserved a.address in
    let take = if ltb_ℤ free remaining then free else remaining in
    elim (Bool-cases (leb_ℤ remaining (pos 0))) [
      | inl done ↦ rw done (tt, h)
      | inr more ↦ elim (Bool-cases (leb_ℤ free (pos 0))) [
        | inl nothing ↦
            rw (more, nothing)
              (plan_legs-AllFree dust balance chain asset reserved remaining addresses h)
        | inr some_free ↦ elim (Bool-cases (ltb_ℤ take dust)) [
          | inl small ↦
              rw (more, some_free, small)
                (plan_legs-AllFree dust balance chain asset reserved remaining addresses h)
          | inr large ↦
              let positive : pos 0 <ℤ take = ground arith in
              let fits : take ≤ℤ free = ground arith in
              let low : take ≤ℤ remaining = ground arith in
              let (all, sum) =
                plan_legs-AllFree dust balance chain asset reserved (remaining -ℤ take) addresses
                  (grind (int_laws, low)) in
              rw (more, some_free, large) (((positive, fits), all), grind (int_laws, sum))
        ]
      ]
    ]

-- What the legs take from one address.
abbrev pub taken_from : Text → List FeeSweepLeg → ℤ
taken_from at [] = pos 0
taken_from at (l ∷ legs) =
    let rest = taken_from at legs in
    if same l.source.address at then l.amount_base_units +ℤ rest else rest

abbrev pub is_among : Text → List PoolAddressRow → Bool
is_among at [] = false
is_among at (a ∷ addresses) = if same a.address at then true else is_among at addresses

-- No address is listed twice.
abbrev pub Different : List PoolAddressRow → Type 0
Different [] = Unit {0}
Different (a ∷ addresses) = (is_among a.address addresses ≡ false) × Different addresses

-- From an address nothing is taken, or no more than it has free.
abbrev pub IsWithin : AddressBalance → Text → Text → Dict ℤ → Text → List FeeSweepLeg → Type 0
IsWithin balance chain asset reserved at legs =
    (taken_from at legs ≡ pos 0) ⊎ (taken_from at legs ≤ℤ free_on balance chain asset reserved at)

module _ (dust : ℤ) (balance : AddressBalance) (chain asset : Text) (reserved : Dict ℤ) where
  plan_legs-untouched :
      (at : Text) (remaining : ℤ) (addresses : List PoolAddressRow)
      → is_among at addresses ≡ false
      → taken_from at (plan_legs dust balance chain asset reserved remaining addresses).0 ≡ pos 0
  unfolding plan_legs
  plan_legs-untouched at remaining [] h = refl
  plan_legs-untouched at remaining (a ∷ addresses) h =
      let free = free_on balance chain asset reserved a.address in
      let take = if ltb_ℤ free remaining then free else remaining in
      let other : same a.address at ≡ false = ground arith in
      let absent : is_among at addresses ≡ false = rw other at h in
      let passed = plan_legs-untouched at remaining addresses absent in
      elim (Bool-cases (leb_ℤ remaining (pos 0))) [
        | inl done ↦ rw done refl
        | inr more ↦ elim (Bool-cases (leb_ℤ free (pos 0))) [
          | inl nothing ↦ rw (more, nothing) passed
          | inr some_free ↦ elim (Bool-cases (ltb_ℤ take dust)) [
            | inl small ↦ rw (more, some_free, small) passed
            | inr large ↦
                rw (more, some_free, large, other)
                  (plan_legs-untouched at (remaining -ℤ take) addresses absent)
          ]
        ]
      ]

  plan_legs-IsWithin :
      (at : Text) (remaining : ℤ) (addresses : List PoolAddressRow)
      → Different addresses
      → IsWithin balance chain asset reserved at
          (plan_legs dust balance chain asset reserved remaining addresses).0
  unfolding plan_legs
  plan_legs-IsWithin at remaining [] d = inl refl
  plan_legs-IsWithin at remaining (a ∷ addresses) d =
      let free = free_on balance chain asset reserved a.address in
      let take = if ltb_ℤ free remaining then free else remaining in
      let passed = plan_legs-IsWithin at remaining addresses d.1 in
      elim (Bool-cases (leb_ℤ remaining (pos 0))) [
        | inl done ↦ rw done (inl refl)
        | inr more ↦ elim (Bool-cases (leb_ℤ free (pos 0))) [
          | inl nothing ↦ rw (more, nothing) passed
          | inr some_free ↦ elim (Bool-cases (ltb_ℤ take dust)) [
            | inl small ↦ rw (more, some_free, small) passed
            | inr large ↦ elim (Bool-cases (same a.address at)) [
              | inr other ↦
                  rw (more, some_free, large, other)
                    (plan_legs-IsWithin at (remaining -ℤ take) addresses d.1)
              | inl here ↦
                  let e : a.address ≡ at = same-true a.address at here in
                  let none_later : taken_from at
                        (plan_legs dust balance chain asset reserved (remaining -ℤ take)
                          addresses).0
                      ≡ pos 0 =
                    plan_legs-untouched at (remaining -ℤ take) addresses (rw (← e) d.0) in
                  let fits : take ≤ℤ free = ground arith in
                  let low : take ≤ℤ free_on balance chain asset reserved at = rw (← e) fits in
                  rw (more, some_free, large, here, none_later) (inr (grind (int_laws, low)))
            ]
          ]
        ]
      ]

ok-injective : {A : Type 0} (x y : A) → ok x ≡ ok y → x ≡ y
ok-injective x y h = cc

claim-ok :
    (tenant merchant asset : Text) (rows : List BalanceRow) (c : ℤ)
    → claim tenant merchant asset rows ≡ ok c
    → pos 0 ≤ℤ c
unfolding claim
claim-ok tenant merchant asset rows c h =
    let (left, _, q) = >>=-eq-ok (surplus tenant merchant asset (pos 0) rows) _ h in
    elim (Bool-cases (ltb_ℤ (pos 0) left)) [
      | inl more ↦ let e : left ≡ c = ok-injective left c (rw more at q) in rw (← e) (ground arith)
      | inr empty ↦
          let e : pos 0 ≡ c = ok-injective (pos 0) c (rw empty at q) in rw (← e) (omega arith)
    ]

-- Over addresses of which none is listed twice, a plan never takes more than the claim from the
-- merchant's addresses together, nor from any of them, over all its legs, more than its balance less
-- what is reserved. Its total is the sum of its legs, and every leg takes something.
pub plan-AllFree :
    (dust : ℤ) (balance : AddressBalance) (tenant merchant chain asset : Text) (reserved : Dict ℤ)
    (rows : List BalanceRow) (addresses : List PoolAddressRow) (p : FeeSweepPlan)
    → Different addresses
    → plan dust balance tenant merchant chain asset reserved rows addresses ≡ ok p
    → (claim tenant merchant asset rows ≡ ok p.claim_base_units)
      × (p.total_base_units ≡ legs_total p.legs)
      × (p.total_base_units ≤ℤ p.claim_base_units)
      × AllFree balance chain asset reserved p.legs
      × ((at : Text) → IsWithin balance chain asset reserved at p.legs)
unfolding plan
plan-AllFree dust balance tenant merchant chain asset reserved rows addresses p different h =
    let (claimed, e, q) = >>=-eq-ok (claim tenant merchant asset rows) _ h in
    let low = claim-ok tenant merchant asset rows claimed e in
    elim (Bool-cases (leb_ℤ claimed (pos 0))) [
      | inl nothing ↦
          let same_plan : planned tenant merchant chain asset claimed ([], 0) ≡ p =
            ok-injective _ p (rw nothing at q) in
          rw (← same_plan) (e, refl, low, tt, λ at. inl refl)
      | inr something ↦
          let legs = plan_legs dust balance chain asset reserved claimed addresses in
          let same_plan : planned tenant merchant chain asset claimed legs ≡ p =
            ok-injective _ p (rw something at q) in
          let (all, sum) =
            plan_legs-AllFree dust balance chain asset reserved claimed addresses low in
          rw (← same_plan) (
            e,
            refl,
            sum,
            all,
            λ at.
                plan_legs-IsWithin dust balance chain asset reserved at claimed addresses different,
          )
    ]

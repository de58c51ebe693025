-- ===== src/Pool/Gather/Legs.antt =====
-- What the loop of `gather` takes.
use cixtech.Prelude.{
  ℤ, pos, ◌+ℤ◌, leb_ℤ, ltb_ℤ, ◌≤ℤ◌, ◌<ℤ◌, int_laws, Text, if◌then◌else◌, List, [], ◌∷◌, ◌≡◌, refl,
  arith, Bool-cases, inl, inr,
}
use cixtech.Pool.Types.{PoolAddressRow, GatheredLeg}
use cixtech.Pool.Gather.{AddressBalance, Funded, funded_of, place, sort}

abbrev pub legs_total : List GatheredLeg → ℤ
legs_total [] = pos 0
legs_total (l ∷ legs) = l.amount_base_units +ℤ legs_total legs

-- What the addresses hold, overdrawn or empty ones left out.
abbrev pub held : AddressBalance → Text → Text → List PoolAddressRow → ℤ
held balance chain asset [] = pos 0
held balance chain asset (a ∷ addresses) =
    let rest = held balance chain asset addresses in
    if ltb_ℤ (pos 0) (balance chain a.address asset)
    then balance chain a.address asset +ℤ rest
    else rest

-- Every leg takes something, and no more than its address has.
abbrev pub AllCovered : AddressBalance → Text → Text → List GatheredLeg → Type 0
AllCovered balance chain asset [] = Unit {0}
AllCovered balance chain asset (l ∷ legs) =
    ((pos 0 <ℤ l.amount_base_units) × (l.amount_base_units ≤ℤ balance chain l.source.address asset))
    × AllCovered balance chain asset legs

abbrev pub funds : List Funded → ℤ
funds [] = pos 0
funds (f ∷ fs) = f.balance +ℤ funds fs

-- Every entry carries the balance of its address, which is positive.
abbrev pub AllFunded : AddressBalance → Text → Text → List Funded → Type 0
AllFunded balance chain asset [] = Unit {0}
AllFunded balance chain asset (f ∷ fs) =
    ((pos 0 <ℤ f.balance) × (f.balance ≡ balance chain f.source.address asset))
    × AllFunded balance chain asset fs

module _ (balance : AddressBalance) (chain asset : Text) where
  place-AllFunded :
      (f : Funded) (fs : List Funded)
      → (pos 0 <ℤ f.balance) × (f.balance ≡ balance chain f.source.address asset)
      → AllFunded balance chain asset fs
      → AllFunded balance chain asset (place f fs)
  unfolding place
  place-AllFunded f [] p h = (p, tt)
  place-AllFunded f (g ∷ gs) p h = elim (Bool-cases (leb_ℤ g.balance f.balance)) [
    | inl first ↦ rw first (p, h)
    | inr later ↦ rw later (h.0, place-AllFunded f gs p h.1)
  ]

  pub sort-AllFunded :
      (fs : List Funded)
      → AllFunded balance chain asset fs
      → AllFunded balance chain asset (sort fs)
  unfolding sort
  sort-AllFunded [] h = tt
  sort-AllFunded (f ∷ fs) h = place-AllFunded f (sort fs) h.0 (sort-AllFunded fs h.1)

  pub funded_of-AllFunded :
      (rows : List PoolAddressRow)
      → AllFunded balance chain asset (funded_of balance chain asset rows)
  unfolding funded_of
  funded_of-AllFunded [] = tt
  funded_of-AllFunded (a ∷ rows) =
      elim (Bool-cases (ltb_ℤ (pos 0) (balance chain a.address asset))) [
        | inl has ↦ rw has ((ground arith, refl), funded_of-AllFunded rows)
        | inr empty ↦ rw empty (funded_of-AllFunded rows)
      ]

  pub funds-funded_of :
      (rows : List PoolAddressRow)
      → funds (funded_of balance chain asset rows) ≡ held balance chain asset rows
  unfolding funded_of
  funds-funded_of [] = refl
  funds-funded_of (a ∷ rows) = elim (Bool-cases (ltb_ℤ (pos 0) (balance chain a.address asset))) [
    | inl has ↦ rw (has, funds-funded_of rows)
    | inr empty ↦ rw (empty, funds-funded_of rows)
  ]

funds-place : (f : Funded) (fs : List Funded) → funds (place f fs) ≡ f.balance +ℤ funds fs
unfolding place
funds-place f [] = refl
funds-place f (g ∷ gs) = elim (Bool-cases (leb_ℤ g.balance f.balance)) [
  | inl first ↦ rw first
  | inr later ↦ rw (later, funds-place f gs) (omega int_laws)
]

pub funds-sort : (fs : List Funded) → funds (sort fs) ≡ funds fs
unfolding sort
funds-sort [] = refl
funds-sort (f ∷ fs) = rw (funds-place f (sort fs), funds-sort fs)

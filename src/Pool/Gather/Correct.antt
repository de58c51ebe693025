-- ===== src/Pool/Gather/Correct.antt =====
-- `gather` raises exactly the amount or nothing.
use cixtech.Prelude.{
  +ℤ_assoc, ◌∙◌, ℤ, pos, ◌+ℤ◌, ◌-ℤ◌, leb_ℤ, leb_ℤ-false, ltb_ℤ, ◌≤ℤ◌, ◌<ℤ◌, int_laws, Text, List,
  [], ◌∷◌, ◌≡◌, refl, arith, true, Bool-cases, inl, inr, ◌⊎◌,
}
use cixtech.Errors.{ok, err}
use cixtech.Pool.Types.{PoolAddressRow, GatheredLeg, GatheredSource}
use cixtech.Pool.Gather.{
  AddressBalance, Funded, funded_of, sort, take_legs, gather, gather_single, source_of,
  insufficient,
}
use cixtech.Pool.Gather.Legs.{
  legs_total, held, AllCovered, funds, AllFunded, sort-AllFunded, funded_of-AllFunded,
  funds-funded_of, funds-sort,
}

pub AllCovered-legs_total :
    (balance : AddressBalance) (chain asset : Text) (legs : List GatheredLeg)
    → AllCovered balance chain asset legs
    → pos 0 ≤ℤ legs_total legs
AllCovered-legs_total balance chain asset [] h = omega arith
AllCovered-legs_total balance chain asset (l ∷ legs) h =
    let rest = AllCovered-legs_total balance chain asset legs h.1 in grind int_laws

AllFunded-funds :
    (balance : AddressBalance) (chain asset : Text) (fs : List Funded)
    → AllFunded balance chain asset fs
    → pos 0 ≤ℤ funds fs
AllFunded-funds balance chain asset [] h = omega arith
AllFunded-funds balance chain asset (f ∷ fs) h =
    let rest = AllFunded-funds balance chain asset fs h.1 in
    let here : pos 0 <ℤ f.balance = h.0.0 in omega int_laws

nothing_left : (a r n : ℤ) → a +ℤ r ≡ n -ℤ n → pos 0 ≤ℤ r → pos 0 ≤ℤ a → r ≡ pos 0
nothing_left a r n e p q = grind int_laws

none_left :
    (a r n all : ℤ) → a +ℤ r ≡ n → pos 0 ≤ℤ r → n ≤ℤ all → (r ≡ pos 0) ⊎ (a ≡ all) → r ≡ pos 0
none_left a r n all e p q (inl z) = z
none_left a r n all e p q (inr b) = grind int_laws

exact : (a r n : ℤ) → a +ℤ r ≡ n → r ≡ pos 0 → a ≡ n
exact a r n e z = grind int_laws

some_left : (a r n all : ℤ) → a +ℤ r ≡ n → a ≤ℤ all → all <ℤ n → ltb_ℤ (pos 0) r ≡ true
some_left a r n all e p q = let more : pos 0 <ℤ r = grind int_laws in ground arith

take_legs_lem :
    (balance : AddressBalance) (chain asset : Text) (remaining : ℤ) (fs : List Funded)
    → AllFunded balance chain asset fs
    → pos 0 ≤ℤ remaining
    → let taken = take_legs remaining fs in
      AllCovered balance chain asset taken.0
      × (legs_total taken.0 +ℤ taken.1 ≡ remaining)
      × (pos 0 ≤ℤ taken.1)
      × (legs_total taken.0 ≤ℤ funds fs)
      × ((taken.1 ≡ pos 0) ⊎ (legs_total taken.0 ≡ funds fs))
unfolding take_legs
take_legs_lem balance chain asset remaining [] h p = (tt, omega int_laws, p, omega arith, inr refl)
take_legs_lem balance chain asset remaining (f ∷ fs) h p =
    elim (Bool-cases (leb_ℤ remaining (pos 0))) [
      | inl done ↦ rw done (
        tt,
        omega int_laws,
        p,
        AllFunded-funds balance chain asset (f ∷ fs) h,
        inl (grind int_laws),
      )
      | inr more ↦
          let positive : pos 0 <ℤ remaining = ground arith in
          elim (Bool-cases (ltb_ℤ f.balance remaining)) [
            | inl all ↦
                let (covered, sum, low, within, end) =
                  take_legs_lem balance chain asset (remaining -ℤ f.balance) fs h.1
                    (grind int_laws) in
                rw (more, all)
                  (
                    ((h.0.0, rw (← h.0.1) (omega arith)), covered),
                    rw (+ℤ_assoc f.balance _ _, sum) (omega int_laws),
                    low,
                    omega int_laws,
                    elim end [ inl zero ↦ inl zero | inr sum_all ↦ inr (rw sum_all) ],
                  )
            | inr part ↦
                let (covered, sum, low, within, end) =
                  take_legs_lem balance chain asset (remaining -ℤ remaining) fs h.1
                    (grind int_laws) in
                rw (more, part)
                  (
                    ((positive, rw (← h.0.1) (ground arith)), covered),
                    rw (+ℤ_assoc remaining _ _, sum) (omega int_laws),
                    low,
                    grind int_laws,
                    inl (
                        nothing_left _ _ remaining sum low
                          (AllCovered-legs_total balance chain asset _ covered)),
                  )
          ]
    ]

-- When the amount is positive and the addresses of the merchant hold it between them, `gather`
-- returns legs that make it up exactly, each of them positive and within the balance of its
-- address.
pub gather-enough :
    (balance : AddressBalance) (chain asset : Text) (amount : ℤ) (rows : List PoolAddressRow)
    → pos 0 <ℤ amount
    → amount ≤ℤ held balance chain asset rows
    → (legs : List GatheredLeg) × (gather balance chain asset amount rows ≡ ok legs)
      × (legs_total legs ≡ amount)
      × AllCovered balance chain asset legs
unfolding gather
gather-enough balance chain asset amount rows p enough =
    let fs = sort (funded_of balance chain asset rows) in
    let funded =
      sort-AllFunded balance chain asset _ (funded_of-AllFunded balance chain asset rows) in
    let total : funds fs ≡ held balance chain asset rows =
      funds-sort (funded_of balance chain asset rows) ∙ funds-funded_of balance chain asset rows in
    let (covered, sum, low, within, end) =
      take_legs_lem balance chain asset amount fs funded (omega arith) in
    let zero = none_left (legs_total _) _ amount (funds fs) sum low (rw total enough) end in
    (
      (take_legs amount fs).0,
      rw (leb_ℤ-false (pos 0) amount p, zero),
      exact _ _ amount sum zero,
      covered,
    )

-- When the addresses of the merchant hold less than the amount between them, or the amount is not
-- positive, `gather` throws the error for insufficient funds.
pub gather_refuses :
    (balance : AddressBalance) (chain asset : Text) (amount : ℤ) (rows : List PoolAddressRow)
    → (amount ≤ℤ pos 0) ⊎ (held balance chain asset rows <ℤ amount)
    → gather balance chain asset amount rows ≡ err insufficient
unfolding gather
gather_refuses balance chain asset amount rows short = elim (Bool-cases (leb_ℤ amount (pos 0))) [
  | inl nothing ↦ rw nothing
  | inr something ↦
      let fs = sort (funded_of balance chain asset rows) in
      let funded =
        sort-AllFunded balance chain asset _ (funded_of-AllFunded balance chain asset rows) in
      let total : funds fs ≡ held balance chain asset rows =
        funds-sort (funded_of balance chain asset rows)
        ∙ funds-funded_of balance chain asset rows in
      let missing : held balance chain asset rows <ℤ amount = ground arith in
      let (_, sum, _, within, _) =
        take_legs_lem balance chain asset amount fs funded (ground arith) in
      let left : ltb_ℤ (pos 0) (take_legs amount fs).1 ≡ true =
        some_left _ _ amount (funds fs) sum within (rw total missing) in
      rw (something, left)
]

-- No address of the merchant holds the amount alone.
abbrev pub AllShort : AddressBalance → Text → Text → ℤ → List PoolAddressRow → Type 0
AllShort balance chain asset amount [] = Unit {0}
AllShort balance chain asset amount (a ∷ rows) =
    (balance chain a.address asset <ℤ amount) × AllShort balance chain asset amount rows

-- `gatherSingle` returns an address that holds the whole amount, or throws because none does.
pub gather_single_lem :
    (balance : AddressBalance) (chain asset : Text) (amount : ℤ) (rows : List PoolAddressRow)
    → ((s : GatheredSource) × (gather_single balance chain asset amount rows ≡ ok s)
        × (amount ≤ℤ balance chain s.address asset))
      ⊎ ((gather_single balance chain asset amount rows ≡ err insufficient)
          × AllShort balance chain asset amount rows)
unfolding gather_single
gather_single_lem balance chain asset amount [] = inr (refl, tt)
gather_single_lem balance chain asset amount (a ∷ rows) =
    elim (Bool-cases (leb_ℤ amount (balance chain a.address asset))) [
      | inl enough ↦ inl (source_of a, rw enough, ground arith)
      | inr short ↦ elim (gather_single_lem balance chain asset amount rows) [
        | inl (s, e, h) ↦ inl (s, rw short e, h)
        | inr (e, all) ↦ inr (rw short e, (ground arith, all))
      ]
    ]

-- Legs that are returned make the amount up, whatever the addresses hold.
pub gather-ok :
    (balance : AddressBalance) (chain asset : Text) (amount : ℤ) (rows : List PoolAddressRow)
    (legs : List GatheredLeg)
    → gather balance chain asset amount rows ≡ ok legs
    → (pos 0 <ℤ amount) × (legs_total legs ≡ amount) × AllCovered balance chain asset legs
unfolding gather
gather-ok balance chain asset amount rows legs h =
    let fs = sort (funded_of balance chain asset rows) in
    let funded =
      sort-AllFunded balance chain asset _ (funded_of-AllFunded balance chain asset rows) in
    elim (Bool-cases (leb_ℤ amount (pos 0))) [
      | inl none_asked ↦ absurd (ground (arith, none_asked, h))
      | inr some_asked ↦
          let positive : pos 0 <ℤ amount = ground arith in
          let (covered, sum, low, within, end) =
            take_legs_lem balance chain asset amount fs funded (omega arith) in
          elim (Bool-cases (ltb_ℤ (pos 0) (take_legs amount fs).1)) [
            | inl short ↦ absurd (ground (arith, some_asked, short, h))
            | inr full ↦
                let same : (take_legs amount fs).0 ≡ legs = ground (arith, some_asked, full, h) in
                let zero : (take_legs amount fs).1 ≡ pos 0 = ground arith in
                (positive, rw (← same) (exact _ _ amount sum zero), rw (← same) covered)
          ]
    ]

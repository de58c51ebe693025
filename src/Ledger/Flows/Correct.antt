-- ===== src/Ledger/Flows/Correct.antt =====
-- The flows refuse bad amounts and rates, and otherwise return a balanced entry: the assertion at
-- the end of each never fires.
use cixtech.Prelude.{
  ℕ, ℤ, pos, negsuc, ◌+ℤ◌, leb_ℤ, ltb_ℤ, leb_ℤ-false, ltb_ℤ-false, ◌≤ℤ◌, ◌<ℤ◌, int_laws,
  eq_of_parts, Text, Bool-cases, List, [], ◌∷◌, Option, none, some, ◌<◌, ◌≡◌, refl, inl, inr, arith,
}
use cixtech.Errors.{Result, ok, err}
use cixtech.Ledger.Types.{
  Posting, JournalEntry, JsNumber, DepositFinalizedInput, PayoutLockedInput, NetworkFeeLeg,
  PayoutSettledInput, FeeSweptInput, DepositDetectedInput, DepositQuarantinedInput,
  DepositReleasedInput,
}
use cixtech.Ledger.Net.{net_of_asset, AllPositive}
use cixtech.Ledger.Balanced.{assert_balanced}
use cixtech.Ledger.Balanced.Correct.{IsBalanced, assert_balanced_iff}
use cixtech.Ledger.Flows.{
  split_fee, invalid_posting, debit_leg, credit_leg, fee_leg, checked, network_fee_postings,
  deposit_finalized, payout_locked, payout_locked_entry, payout_settled, fee_swept,
  deposit_detected, deposit_quarantined, deposit_released,
}
use cixtech.Ledger.Flows.Fee.{split_fee_lem}

checked_lem : (e : JournalEntry) → IsBalanced e.postings → checked e ≡ ok e
unfolding checked
checked_lem e b = rw ((assert_balanced_iff e).1 b)

-- Postings that change no asset.
abbrev IsNeutral : List Posting → Type 0
IsNeutral ps = AllPositive ps × ((a : Text) → net_of_asset a ps ≡ pos 0)

move-IsBalanced :
    (k j a : Text) (m : ℤ) (rest : List Posting)
    → pos 0 <ℤ m
    → IsNeutral rest
    → IsBalanced (debit_leg k a m ∷ credit_leg j a m ∷ rest)
unfolding net_of_asset
move-IsBalanced k j a m rest h (positive, zero) =
    (λ e. cc, (h, (h, positive)), λ b. rw (zero b) (grind int_laws))

split-IsBalanced :
    (k j l a : Text) (total part fee : ℤ)
    → pos 0 <ℤ part
    → pos 0 ≤ℤ fee
    → total ≡ part +ℤ fee
    → IsBalanced (debit_leg k a total ∷ credit_leg j a part ∷ fee_leg l a fee)
unfolding net_of_asset
split-IsBalanced k j l a total part fee h f e = elim (Bool-cases (ltb_ℤ (pos 0) fee)) [
  | inl some_fee ↦
      let positive : pos 0 <ℤ fee = ground arith in
      rw some_fee (λ e. cc, (total_pos, (h, (positive, tt))), λ b. grind int_laws)
  | inr no_fee ↦
      let zero : fee ≡ pos 0 = ground (arith, eq_of_parts fee (pos 0)) in
      rw no_fee (λ e. cc, (total_pos, (h, tt)), λ b. grind int_laws)
]
  where
    total_pos : pos 0 <ℤ total
    total_pos = grind int_laws

network_fee_postings-IsNeutral : (fee : Option NetworkFeeLeg) → IsNeutral (network_fee_postings fee)
unfolding network_fee_postings net_of_asset
network_fee_postings-IsNeutral none = (tt, λ a. refl)
network_fee_postings-IsNeutral (some fee) = elim (Bool-cases (leb_ℤ fee.amount (pos 0))) [
  | inl free ↦ rw (free, network_fee_postings) (tt, λ a. refl)
  | inr paid ↦
      rw (paid, network_fee_postings) ((ground arith, (ground arith, tt)), λ a. grind int_laws)
]

-- The flows that make an entry from an input.
pub data Flow : Type 0 where
  finalized : DepositFinalizedInput → Flow
  locked : PayoutLockedInput → Flow
  settled : PayoutSettledInput → Flow
  swept : FeeSweptInput → Flow
  detected : DepositDetectedInput → Flow
  quarantined : DepositQuarantinedInput → Flow
  released : DepositReleasedInput → Flow

pub run_flow : ℕ → Flow → Result JournalEntry
run_flow now (Flow.finalized i) = deposit_finalized now i
run_flow now (Flow.locked i) = payout_locked now i
run_flow now (Flow.settled i) = payout_settled now i
run_flow now (Flow.swept i) = fee_swept now i
run_flow now (Flow.detected i) = deposit_detected now i
run_flow now (Flow.quarantined i) = deposit_quarantined now i
run_flow now (Flow.released i) = deposit_released now i

abbrev IsRate : JsNumber → Type 0
IsRate (JsNumber.integer n) = (pos 0 ≤ℤ n) × (n <ℤ pos 10_000)
IsRate JsNumber.not_integer = ⊥

-- What an input must satisfy: a positive amount, and a rate or a fee in range.
abbrev pub IsAcceptable : Flow → Type 0
IsAcceptable (Flow.finalized i) = (pos 0 <ℤ i.amount) × IsRate i.fee_basis_points
IsAcceptable (Flow.locked i) = pos 0 <ℤ i.amount
IsAcceptable (Flow.settled i) = pos 0 <ℤ i.amount
IsAcceptable (Flow.swept i) = pos 0 <ℤ i.amount
IsAcceptable (Flow.detected i) = pos 0 <ℤ i.amount
IsAcceptable (Flow.quarantined i) = pos 0 <ℤ i.amount
IsAcceptable (Flow.released i) = (pos 0 <ℤ i.amount) × (pos 0 ≤ℤ i.fee)

abbrev IsBuilt : Result JournalEntry → Type 0
IsBuilt r = (e : JournalEntry) × (r ≡ ok e) × IsBalanced e.postings

built : (e : JournalEntry) → IsBalanced e.postings → IsBuilt (checked e)
built e b = (e, checked_lem e b, b)

no_legs : IsNeutral []
unfolding net_of_asset
no_legs = (tt, λ a. refl)

finalized-IsBuilt :
    (now : ℕ) (i : DepositFinalizedInput) (amount bps : ℕ)
    → i.amount ≡ pos amount
    → i.fee_basis_points ≡ JsNumber.integer (pos bps)
    → 0 < amount
    → bps < 10_000
    → IsBuilt (deposit_finalized now i)
unfolding deposit_finalized
finalized-IsBuilt now i amount bps ea eb h k =
    let (fee, net, e, total, net_pos, _, _) = split_fee_lem amount bps h k in
    rw (ea, eb, e)
      (built _ (
        split-IsBalanced _ _ _ i.asset (pos amount) (pos net) (pos fee) (omega arith) (omega arith)
          (omega int_laws)))

finalized_of :
    (now : ℕ) (i : DepositFinalizedInput) (amount : ℤ) (rate : JsNumber)
    → i.amount ≡ amount
    → i.fee_basis_points ≡ rate
    → pos 0 <ℤ amount
    → IsRate rate
    → IsBuilt (deposit_finalized now i)
finalized_of now i (pos n) (JsNumber.integer (pos b)) ea eb h r =
    finalized-IsBuilt now i n b ea eb (omega arith) (omega arith)
finalized_of now i (pos n) (JsNumber.integer (negsuc b)) ea eb h r = absurd (omega arith)
finalized_of now i (negsuc n) rate ea eb h r = absurd (omega arith)
finalized_of now i amount JsNumber.not_integer ea eb h r = absurd r

split_fee_refuses :
    (amount : ℤ) (rate : JsNumber)
    → ¬ ((pos 0 <ℤ amount) × IsRate rate)
    → split_fee amount rate ≡ err invalid_posting
unfolding split_fee
split_fee_refuses amount (JsNumber.integer n) h = ground arith
split_fee_refuses amount JsNumber.not_integer h = ground arith

-- On a positive amount, with a rate that is a whole number of basis points from 0 below 10000, or
-- a fee that is not negative, where the flow takes one, every flow returns an entry, and a
-- balanced one.
pub run_flow-IsBuilt : (now : ℕ) (f : Flow) → IsAcceptable f → IsBuilt (run_flow now f)
unfolding run_flow payout_locked payout_settled fee_swept deposit_detected deposit_quarantined
    deposit_released
run_flow-IsBuilt now (Flow.finalized i) h = finalized_of now i _ _ refl refl h.0 h.1
run_flow-IsBuilt now (Flow.locked i) h =
    rw (leb_ℤ-false _ _ h) (built _ (move-IsBalanced _ _ i.asset i.amount [] h no_legs))
run_flow-IsBuilt now (Flow.settled i) h = rw (leb_ℤ-false _ _ h) (
    built _
      (move-IsBalanced _ _ i.asset i.amount _ h (network_fee_postings-IsNeutral i.network_fee)))
run_flow-IsBuilt now (Flow.swept i) h = rw (leb_ℤ-false _ _ h) (
    built _
      (move-IsBalanced _ _ i.asset i.amount _ h (network_fee_postings-IsNeutral i.network_fee)))
run_flow-IsBuilt now (Flow.detected i) h =
    rw (leb_ℤ-false _ _ h) (built _ (move-IsBalanced _ _ i.asset i.amount [] h no_legs))
run_flow-IsBuilt now (Flow.quarantined i) h =
    rw (leb_ℤ-false _ _ h) (built _ (move-IsBalanced _ _ i.asset i.amount [] h no_legs))
run_flow-IsBuilt now (Flow.released i) h =
    rw (leb_ℤ-false _ _ h.0, ltb_ℤ-false _ _ h.1)
      (built _ (split-IsBalanced _ _ _ i.asset (i.amount +ℤ i.fee) i.amount i.fee h.0 h.1 refl))

-- On an amount that is not positive, or a rate or a fee out of range, every flow throws the error
-- for an invalid posting.
pub run_flow_refuses :
    (now : ℕ) (f : Flow) → ¬ IsAcceptable f → run_flow now f ≡ err invalid_posting
unfolding run_flow deposit_finalized payout_locked payout_settled fee_swept deposit_detected
    deposit_quarantined deposit_released
run_flow_refuses now (Flow.finalized i) h = rw (split_fee_refuses i.amount i.fee_basis_points h)
run_flow_refuses now (Flow.locked i) h = ground arith
run_flow_refuses now (Flow.settled i) h = ground arith
run_flow_refuses now (Flow.swept i) h = ground arith
run_flow_refuses now (Flow.detected i) h = ground arith
run_flow_refuses now (Flow.quarantined i) h = ground arith
run_flow_refuses now (Flow.released i) h = ground arith

pub payout_locked_lem :
    (now : ℕ) (i : PayoutLockedInput)
    → pos 0 <ℤ i.amount
    → payout_locked now i ≡ ok (payout_locked_entry now i)
unfolding payout_locked
payout_locked_lem now i h =
    rw (leb_ℤ-false _ _ h) (checked_lem _ (move-IsBalanced _ _ i.asset i.amount [] h no_legs))

pub payout_locked_refuses :
    (now : ℕ) (i : PayoutLockedInput)
    → i.amount ≤ℤ pos 0
    → payout_locked now i ≡ err invalid_posting
unfolding payout_locked
payout_locked_refuses now i h = ground arith

pub payout_locked_accepted :
    (now : ℕ) (i : PayoutLockedInput)
    → pos 0 <ℤ i.amount
    → assert_balanced (payout_locked_entry now i) ≡ ok tt
payout_locked_accepted now i h =
    (assert_balanced_iff _).1 (move-IsBalanced _ _ i.asset i.amount [] h no_legs)

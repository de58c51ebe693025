-- ===== src/Ledger/Balanced/Correct.antt =====
-- `assertBalanced` accepts exactly the entries that double-entry bookkeeping accepts.
use cixtech.Prelude.{
  ℤ, pos, ◌+ℤ◌, int_laws, Text, get_or, true, inl, inr, List, [], ◌∷◌, zero_+ℤ, ◌∙◌, sym, ◌≡◌, refl,
  ◌≢◌, ◌↔◌, arith,
}
use cixtech.Prelude.Dict.{Dict, lookup, lookup-insert, Distinct, insert-Distinct}
use cixtech.Errors.{ok, Result-cases}
use cixtech.Ledger.Types.{Posting, JournalEntry}
use cixtech.Ledger.Net.{signed, net_of_asset, AllPositive}
use cixtech.Ledger.Balanced.{
  add_posting, netted_from, netted_by_asset, all_zero, is_balanced, assert_balanced,
}

abbrev value : Text → Dict ℤ → ℤ
value a m = get_or (lookup a m) (pos 0)

value-add_posting :
    (a : Text) (p : Posting) (m : Dict ℤ)
    → value a (add_posting p m) ≡ value a m +ℤ net_of_asset a (p ∷ [])
unfolding add_posting net_of_asset
value-add_posting a p m = grind (int_laws, lookup-insert p.asset a (value p.asset m +ℤ signed p) m)

add_posting-Distinct : (p : Posting) (m : Dict ℤ) → Distinct m → Distinct (add_posting p m)
unfolding add_posting
add_posting-Distinct p m d = insert-Distinct p.asset _ m d

-- With positive amounts the loop ends, and has added the nets to the totals.
netted_from-AllPositive :
    (m : Dict ℤ) (ps : List Posting)
    → AllPositive ps
    → Distinct m
    → (n : Dict ℤ) × (netted_from m ps ≡ ok n)
      × Distinct n
      × ((a : Text) → value a n ≡ value a m +ℤ net_of_asset a ps)
unfolding netted_from net_of_asset
netted_from-AllPositive m [] h d = (m, refl, d, λ a. omega int_laws)
netted_from-AllPositive m (p ∷ ps) h d =
    let (n, e, dn, v) =
      netted_from-AllPositive (add_posting p m) ps h.1 (add_posting-Distinct p m d) in
    (n, ground arith, dn, λ a. rw (v a, value-add_posting a p m) (omega int_laws))

-- The loop ends only if every amount is positive.
netted_from-ok :
    (m : Dict ℤ) (ps : List Posting) (n : Dict ℤ) → netted_from m ps ≡ ok n → AllPositive ps
unfolding netted_from
netted_from-ok m [] n e = tt
netted_from-ok m (p ∷ ps) n e = ground (arith, netted_from-ok (add_posting p m) ps n)

all_zero-value : (m : Dict ℤ) (a : Text) → all_zero m ≡ true → value a m ≡ pos 0
unfolding all_zero lookup
all_zero-value [] a h = refl
all_zero-value ((k, v) ∷ m) a h = ground (arith, all_zero-value m a)

all_zero_of_values :
    (m : Dict ℤ) → Distinct m → ((a : Text) → value a m ≡ pos 0) → all_zero m ≡ true
unfolding all_zero lookup
all_zero_of_values [] d h = refl
all_zero_of_values ((k, v) ∷ m) d h =
    ground (arith, h k, all_zero_of_values m d.1 (λ a. tail_zero a))
  where
    tail_zero : (a : Text) → value a m ≡ pos 0
    tail_zero a = ground (arith, h a, d.0)

abbrev pub IsBalanced : List Posting → Type 0
IsBalanced ps = (ps ≢ []) × AllPositive ps × ((a : Text) → net_of_asset a ps ≡ pos 0)

accepted-IsBalanced : (e : JournalEntry) → assert_balanced e ≡ ok tt → IsBalanced e.postings
unfolding assert_balanced is_balanced netted_by_asset lookup
accepted-IsBalanced e h = elim (Result-cases (netted_from [] e.postings)) [
  | inl (n, q) ↦
      let positive = netted_from-ok [] e.postings n q in
      let (m, q', _, v) = netted_from-AllPositive [] e.postings positive tt in
      (
        ground arith,
        positive,
        λ a. sym (zero_+ℤ _) ∙ sym (v a) ∙ all_zero-value m a (ground (arith, q, q')),
      )
  | inr (x, q) ↦ ground (arith, q)
]

IsBalanced-accepted : (e : JournalEntry) → IsBalanced e.postings → assert_balanced e ≡ ok tt
unfolding assert_balanced is_balanced netted_by_asset lookup
IsBalanced-accepted e (some_posting, positive, zero) =
    let (n, q, d, v) = netted_from-AllPositive [] e.postings positive tt in
    let z = all_zero_of_values n d (λ a. rw (v a, zero a) (zero_+ℤ (pos 0))) in ground (arith, q, z)

-- `assertBalanced` passes exactly when there is a posting, every amount is positive, and every
-- asset nets to zero over the entry.
pub assert_balanced_iff : (e : JournalEntry) → (assert_balanced e ≡ ok tt) ↔ IsBalanced e.postings
assert_balanced_iff e = (accepted-IsBalanced e, IsBalanced-accepted e)

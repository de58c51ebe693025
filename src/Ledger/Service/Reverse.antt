-- ===== src/Ledger/Service/Reverse.antt =====
-- Reversing a posted entry by its id.
use cixtech.Prelude.{ℕ, int_laws, Text, codes, Bool, true, List, [], ◌∷◌, ◌≡◌, refl}
use cixtech.Errors.{ok, >>=-eq-ok}
use cixtech.Ledger.Types.{Posting, JournalEntry}
use cixtech.Ledger.Net.{flipped, net-flipped, net_of_asset-flipped, flipped-AllPositive}
use cixtech.Ledger.Balanced.{assert_balanced}
use cixtech.Ledger.Balanced.Correct.{IsBalanced, assert_balanced_iff}
use cixtech.Ledger.Store.{LedgerStore, AreStorable}
use cixtech.Ledger.Service.{post, reverse_by_ref}

flipped-IsBalanced : (ps : List Posting) → IsBalanced ps → IsBalanced (flipped ps)
flipped-IsBalanced [] b = absurd (b.0 refl)
flipped-IsBalanced (p ∷ ps) (some_posting, positive, zero) = (
  λ e. cc,
  flipped-AllPositive (p ∷ ps) positive,
  λ a. rw (net_of_asset-flipped a (p ∷ ps), zero a) (omega int_laws),
)

flipped-AreStorable : (ps : List Posting) → AreStorable ps → AreStorable (flipped ps)
flipped-AreStorable [] h = tt
flipped-AreStorable (p ∷ ps) h = (h.0, flipped-AreStorable ps h.1)

abbrev pub reversal : Text → Text → ℕ → List Posting → JournalEntry
reversal new_id new_key occurred_at original = record {
  id = new_id;
  idempotency_key = new_key;
  kind = codes "reverse";
  postings = flipped original;
  occurred_at = occurred_at;
}

module _ {S : Type 0} {IsSound : S → Type 0} (store : LedgerStore S IsSound) where
  pub post-ok :
      (e : JournalEntry) (b : Bool) (s s' : S)
      → post store e s ≡ ok (b, s')
      → IsBalanced e.postings × (store.append e s ≡ ok (b, s'))
  unfolding post
  post-ok e b s s' h =
      let (_, accepted, appended) = >>=-eq-ok (assert_balanced e) (λ _. store.append e s) h in
      ((assert_balanced_iff e).0 accepted, appended)

  reverse_by_ref-known :
      (id new_id new_key : Text) (at : ℕ) (s : S) (ps : List Posting)
      → store.entry_postings id s ≡ ps
      → IsBalanced ps
      → reverse_by_ref store id new_id new_key at s ≡ store.append (reversal new_id new_key at ps) s
  unfolding reverse_by_ref
  reverse_by_ref-known id new_id new_key at s [] e b = absurd (b.0 refl)
  reverse_by_ref-known id new_id new_key at s (p ∷ ps) e b = rw (
    e,
    (assert_balanced_iff (reversal new_id new_key at (p ∷ ps))).1 (flipped-IsBalanced (p ∷ ps) b),
  )

  -- Reversing an entry that has been posted is never refused, neither as unknown nor as
  -- unbalanced: it comes down to the append of the flipped postings.
  reverse_by_ref-posted :
      (e : JournalEntry) (new_id new_key : Text) (at : ℕ) (s s' : S)
      → IsSound s
      → post store e s ≡ ok (true, s')
      → reverse_by_ref store e.id new_id new_key at s'
        ≡ store.append (reversal new_id new_key at e.postings) s'
  reverse_by_ref-posted e new_id new_key at s s' v h =
      let (b, q) = post-ok e true s s' h in
      reverse_by_ref-known e.id new_id new_key at s' e.postings (store.postings_applied e s s' v q)
        b

  -- On a sound store, after an entry is posted and applied and then reversed under a new id and
  -- key that apply, every balance is what it was before.
  pub reverse_by_ref-restores :
      (e : JournalEntry) (new_id new_key : Text) (at : ℕ) (s s' s'' : S)
      → IsSound s
      → AreStorable e.postings
      → post store e s ≡ ok (true, s')
      → reverse_by_ref store e.id new_id new_key at s' ≡ ok (true, s'')
      → (k a : Text) → store.balance k a s'' ≡ store.balance k a s
  reverse_by_ref-restores e new_id new_key at s s' s'' v n h r k a =
      let (_, q) = post-ok e true s s' h in
      rw
        (
          store.balance_applied (reversal new_id new_key at e.postings) s' s''
              (flipped-AreStorable e.postings n)
              (rw (reverse_by_ref-posted e new_id new_key at s s' v h) at r) k a,
          net-flipped k a e.postings,
          store.balance_applied e s s' n q k a,
        )
        (omega int_laws)

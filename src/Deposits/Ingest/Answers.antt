-- ===== src/Deposits/Ingest/Answers.antt =====
-- What a report of a deposit leaves the ledger with.
use cixtech.Ledger.Flows.Keys.{deposit_quarantined-key, deposit_finalized-key}
use cixtech.Prelude.{
  sym, ◌∙◌, ℕ, Text, Bool, true, false, Option, none, some, inl, inr, ◌⊎◌, ◌≡◌, ◌≢◌, refl, subst,
}
use cixtech.Errors.{Result, ok, err, Error, Result-cases, throw_if}
use cixtech.Errors
use cixtech.Effect.{Effect, attempt, >>=-split}
use cixtech.Ledger.Types.{JournalEntry}
use cixtech.Ledger.Flows.{deposit_finalized, deposit_quarantined}
use cixtech.Ledger.Store.{LedgerStore}
use cixtech.Ledger.Service.{post, reverse_by_ref, no_postings, unknown_entry}
use cixtech.Ledger.Service.Reverse.{post-ok, reversal}
use cixtech.Deposits.Ingest.{
  ChainDeposit, AttributionEntry, IngestStatus, Booking, AddressLifecycle, Ingestor, ref_of,
  post_built, credit_input, quarantine_input, is_blocked, after_applied, quarantine, credit,
  ingest_attributed, ingest_confirmed, booked, screened,
}

module _ {S : Type 0} {IsSound : S → Type 0} (store : LedgerStore S IsSound) where
  -- No entry under the key would be applied.
  abbrev pub IsTaken : Text → S → Type 0
  IsTaken key s = (e : JournalEntry) → e.idempotency_key ≡ key → store.append e s ≡ ok (false, s)

  -- An operation that changes the state by the append of one entry at most.
  abbrev pub Appends : (S → Result (Bool × S)) → Type 0
  Appends op =
      (s s' : S) (b : Bool)
      → op s ≡ ok (b, s')
      → (e : JournalEntry) × (store.append e s ≡ ok (b, s'))

  post_built-Appends : (built : Result JournalEntry) → Appends (post_built store built)
  post_built-Appends (err thrown) s s' b h = absurd (cc)
  post_built-Appends (ok e) s s' b h = (e, (post-ok store e b s s' h).1)

  pub reverse_by_ref-Appends :
      (id new_id key : Text) (at : ℕ) → Appends (reverse_by_ref store id new_id key at)
  unfolding reverse_by_ref
  reverse_by_ref-Appends id new_id key at s s' b h =
      let original = store.entry_postings id s in
      let entry = reversal new_id key at original in
      let (_, known, posted) =
        Errors.>>=-eq-ok (throw_if (no_postings original) unknown_entry) (λ _. post store entry s)
          h in
      (entry, (post-ok store entry b s s' posted).1)

  pub attempt-IsTaken :
      (key : Text) (op : S → Result (Bool × S)) (s : S)
      → Appends op
      → IsTaken key s
      → IsTaken key (attempt s (op s)).1
  attempt-IsTaken key op s appends taken = elim (Result-cases (op s)) [
    | inl ((b, s'), e) ↦
        let (entry, appended) = appends s s' b e in
        rw e
          (λ known same_key. store.append_known known entry b s s' (taken known same_key) appended)
    | inr (thrown, e) ↦ rw e taken
  ]

  -- Applying an entry takes its key.
  IsTaken-append :
      (key : Text) (e : JournalEntry) (b : Bool) (s s' : S)
      → store.append e s ≡ ok (b, s')
      → e.idempotency_key ≡ key
      → IsTaken key s'
  IsTaken-append key e b s s' h same_key d d_key =
      store.append_again d e b s s' h (d_key ∙ sym same_key)

  post_built-IsTaken :
      (key : Text) (built : Result JournalEntry) (b : Bool) (s s' : S)
      → ((e : JournalEntry) → built ≡ ok e → e.idempotency_key ≡ key)
      → post_built store built s ≡ ok (b, s')
      → IsTaken key s'
  post_built-IsTaken key (err thrown) b s s' keyed h = absurd (cc)
  post_built-IsTaken key (ok e) b s s' keyed h =
      IsTaken-append key e b s s' (post-ok store e b s s' h).1 (keyed e refl)

  -- With its key taken, an entry that is built changes nothing and is answered as a duplicate.
  post_built_taken :
      (key : Text) (built : Result JournalEntry) (s : S)
      → ((e : JournalEntry) → built ≡ ok e → e.idempotency_key ≡ key)
      → IsTaken key s
      → ((x : Error) × (post_built store built s ≡ err x))
        ⊎ (post_built store built s ≡ ok (false, s))
  post_built_taken key (err thrown) s keyed taken = inl (thrown, refl)
  post_built_taken key (ok e) s keyed taken = elim (Result-cases (post store e s)) [
    | inl ((b, s'), h) ↦
        let appended = (post-ok store e b s s' h).1 in
        let known = taken e (keyed e refl) in inr (h ∙ (sym appended ∙ known))
    | inr (x, h) ↦ inl (x, h)
  ]

module _ {S X : Type 0} {IsSound : S → Type 0} (store : LedgerStore S IsSound)
    (ingestor : Ingestor X) where
  after_applied-ledger :
      (lifecycle : Option (AddressLifecycle X)) (act : AddressLifecycle X → Effect X (Unit {0}))
      (applied : Bool) (w : Booking S X)
      → (after_applied lifecycle act applied w).ledger ≡ w.ledger
  unfolding after_applied
  after_applied-ledger none act applied w = refl
  after_applied-ledger (some lifecycle) act false w = refl
  after_applied-ledger (some lifecycle) act true w = refl

  is_blocked-ledger :
      (screen : Option (ChainDeposit → Effect X Bool)) (d : ChainDeposit) (w : Booking S X)
      → (is_blocked screen d w).1.ledger ≡ w.ledger
  unfolding is_blocked
  is_blocked-ledger none d w = refl
  is_blocked-ledger (some screen) d w = refl

  threw : {A : Type 0} {x : Error} {a : A} → ◌≡◌ {A = Result A} (err x) (ok a) → ⊥
  threw h = cc

  -- What a deposit that is booked leaves the ledger with.
  abbrev pub Answers : Text → S → Result IngestStatus × Booking S X → Type 0
  Answers key s r =
      ((status : IngestStatus)
        → r.0 ≡ ok status
        → status ≢ IngestStatus.unmatched
        → IsTaken store key r.1.ledger)
      × (IsTaken store key s
          → (r.1.ledger ≡ s)
            × ((status : IngestStatus)
                → r.0 ≡ ok status
                → (status ≡ IngestStatus.duplicate) ⊎ (status ≡ IngestStatus.unmatched)))
      × ((other : Text) → IsTaken store other s → IsTaken store other r.1.ledger)

  booked-Answers :
      (now : ℕ) (status : IngestStatus) (act : AddressLifecycle X → Effect X (Unit {0}))
      (key : Text) (built : Result JournalEntry) (w : Booking S X)
      → ((e : JournalEntry) → built ≡ ok e → e.idempotency_key ≡ key)
      → Answers key w.ledger (booked store ingestor now status act built w)
  unfolding booked
  booked-Answers now status act key built w keyed = (
    λ answer h matched. elim (Result-cases (post_built store built w.ledger)) [
      | inl ((b, s'), posted) ↦
          let taken = post_built-IsTaken store key built b w.ledger s' keyed posted in
          let kept = after_applied-ledger ingestor.lifecycle act b (record w { ledger = s' }) in
          rw posted (subst (λ (s : S). IsTaken store key s) (sym kept) taken)
      | inr (x, refused) ↦ absurd (threw (rw refused at h))
    ],
    λ taken. elim (post_built_taken store key built w.ledger keyed taken) [
      | inl (x, refused) ↦ rw refused (refl, λ answer h. absurd (cc))
      | inr known ↦ rw known (
        after_applied-ledger ingestor.lifecycle act false _,
        λ answer h. inl (let same : IngestStatus.duplicate ≡ answer = cc in sym same),
      )
    ],
    λ other taken.
        let kept =
          attempt-IsTaken store other (post_built store built) w.ledger
            (post_built-Appends store built) taken in
        elim (Result-cases (post_built store built w.ledger)) [
          | inl ((b, s'), posted) ↦
              let after =
                after_applied-ledger ingestor.lifecycle act b (record w { ledger = s' }) in
              rw posted (subst (λ (s : S). IsTaken store other s) (sym after) (rw posted at kept))
          | inr (x, refused) ↦ rw refused (rw refused at kept)
        ],
  )

  answered_same : {a b : IngestStatus} → ◌≡◌ {A = Result IngestStatus} (ok a) (ok b) → b ≡ a
  answered_same h = cc

  Answers-err :
      (key : Text) (s : S) (x : Error) (v : Booking S X) → v.ledger ≡ s → Answers key s (err x, v)
  Answers-err key s x v same_ledger = (
    λ status h matched. absurd (threw h),
    λ taken. (same_ledger, λ status h. absurd (threw h)),
    λ other taken. rw same_ledger taken,
  )

  screened-Answers :
      (now : ℕ) (blocked : Bool) (d : ChainDeposit) (attr : AttributionEntry) (w : Booking S X)
      → Answers (ref_of d) w.ledger (screened store ingestor now blocked d attr w)
  unfolding quarantine credit
  screened-Answers now true d attr w =
      booked-Answers now IngestStatus.quarantined _ (ref_of d)
        (deposit_quarantined now (quarantine_input d attr)) w
        (deposit_quarantined-key now (quarantine_input d attr))
  screened-Answers now false d attr w =
      booked-Answers now IngestStatus.credited _ (ref_of d)
        (deposit_finalized now (credit_input d attr)) w
        (deposit_finalized-key now (credit_input d attr))

  ingest_attributed-Answers :
      (now : ℕ) (d : ChainDeposit) (attr : Option AttributionEntry) (w : Booking S X)
      → Answers (ref_of d) w.ledger (ingest_attributed store ingestor now d attr w)
  unfolding ingest_attributed
  ingest_attributed-Answers now d none w = (
    λ status h matched. absurd (matched (answered_same h)),
    λ taken. (refl, λ status h. inr (answered_same h)),
    λ other taken. taken,
  )
  ingest_attributed-Answers now d (some attr) w =
      elim (>>=-split (is_blocked ingestor.screen d) (λ b. screened store ingestor now b d attr)
        w) [
          | inl (x, _, whole) ↦
              subst (λ (r : Result IngestStatus × Booking S X). Answers (ref_of d) w.ledger r)
                (sym whole)
                (Answers-err (ref_of d) w.ledger x (is_blocked ingestor.screen d w).1
                  (is_blocked-ledger ingestor.screen d w))
          | inr (b, _, whole) ↦
              subst (λ (r : Result IngestStatus × Booking S X). Answers (ref_of d) w.ledger r)
                (sym whole)
                (subst
                  (λ (s : S).
                    Answers (ref_of d) s
                      (screened store ingestor now b d attr (is_blocked ingestor.screen d w).1))
                  (is_blocked-ledger ingestor.screen d w)
                  (screened-Answers now b d attr (is_blocked ingestor.screen d w).1))
        ]

  pub ingest_confirmed-Answers :
      (now : ℕ) (d : ChainDeposit) (w : Booking S X)
      → Answers (ref_of d) w.ledger (ingest_confirmed store ingestor now d w)
  unfolding ingest_confirmed
  ingest_confirmed-Answers now d w =
      ingest_attributed-Answers now d (ingestor.resolve d.chain d.to w.outside) w

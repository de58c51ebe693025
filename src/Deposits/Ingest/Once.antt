-- ===== src/Deposits/Ingest/Once.antt =====
-- A deposit is booked once.
use cixtech.Prelude.{ℕ, Text, List, [], ◌∷◌, ◌⊎◌, ◌≡◌, ◌≢◌, refl, subst}
use cixtech.Errors.{Result, ok}
use cixtech.Effect.{attempt}
use cixtech.Ledger.Types.{JournalEntry}
use cixtech.Ledger.Store.{LedgerStore}
use cixtech.Ledger.Service.{post, reverse_by_ref}
use cixtech.Ledger.Service.Reverse.{post-ok}
use cixtech.Deposits.Ingest.{
  ChainDeposit, IngestStatus, Booking, Ingestor, ref_of, reverse_ref, ingest_confirmed,
  reverse_credit,
}
use cixtech.Deposits.Ingest.Answers.{
  IsTaken, attempt-IsTaken, reverse_by_ref-Appends, ingest_confirmed-Answers,
}

-- What may happen between two reports of a deposit: other deposits, reversals, entries that other
-- parts of the engine post, and changes of the world outside.
pub data Event (X : Type 0) : Type 0 where
  ingests : ℕ → ChainDeposit → Event X
  reverses : ℕ → ChainDeposit → Event X
  posts : JournalEntry → Event X
  moves : X → Event X

module _ {S X : Type 0} {IsSound : S → Type 0} (store : LedgerStore S IsSound)
    (ingestor : Ingestor X) where
  unfoldable pub happen : Event X → Booking S X → Booking S X
  happen (Event.ingests now d) w = (ingest_confirmed store ingestor now d w).1
  happen (Event.reverses now d) w = (reverse_credit store ingestor now d w).1
  happen (Event.posts e) w = record w { ledger = (attempt w.ledger (post store e w.ledger)).1 }
  happen (Event.moves x) w = record w { outside = x }

  unfoldable pub history : List (Event X) → Booking S X → Booking S X
  unfolding happen
  history [] w = w
  history (e ∷ events) w = history events (happen e w)

  happen-IsTaken :
      (key : Text) (e : Event X) (w : Booking S X)
      → IsTaken store key w.ledger
      → IsTaken store key (happen e w).ledger
  unfolding happen reverse_credit
  happen-IsTaken key (Event.ingests now d) w taken =
      (ingest_confirmed-Answers store ingestor now d w).2 key taken
  happen-IsTaken key (Event.reverses now d) w taken =
      attempt-IsTaken store key
        (reverse_by_ref store (ref_of d) (reverse_ref d) (reverse_ref d) now) w.ledger
        (reverse_by_ref-Appends store (ref_of d) (reverse_ref d) (reverse_ref d) now) taken
  happen-IsTaken key (Event.posts e) w taken =
      attempt-IsTaken store key (post store e) w.ledger
        (λ s s' b h. (e, (post-ok store e b s s' h).1)) taken
  happen-IsTaken key (Event.moves x) w taken = taken

  history-IsTaken :
      (key : Text) (events : List (Event X)) (w : Booking S X)
      → IsTaken store key w.ledger
      → IsTaken store key (history events w).ledger
  unfolding history
  history-IsTaken key [] w taken = taken
  history-IsTaken key (e ∷ events) w taken =
      history-IsTaken key events (happen e w) (happen-IsTaken key e w taken)

  -- A deposit that was credited, quarantined or found to be a duplicate is not booked again. However
  -- many deposits, reversals, other entries and changes of the world follow, a later report of the
  -- same chain, transaction and index leaves the ledger as it is, and is answered, if at all, as a
  -- duplicate or as unmatched. That holds of a deposit whose credit was reversed in between as well.
  pub ingest_once :
      (now later : ℕ) (d again : ChainDeposit) (w v : Booking S X) (status answer : IngestStatus)
      (events : List (Event X))
      → ingest_confirmed store ingestor now d w ≡ (ok status, v)
      → status ≢ IngestStatus.unmatched
      → ref_of again ≡ ref_of d
      → let u = history events v in
        ((ingest_confirmed store ingestor later again u).1.ledger ≡ u.ledger)
        × ((ingest_confirmed store ingestor later again u).0 ≡ ok answer
            → (answer ≡ IngestStatus.duplicate) ⊎ (answer ≡ IngestStatus.unmatched))
  ingest_once now later d again w v status answer events h matched same_ref =
      let first = ingest_confirmed-Answers store ingestor now d w in
      let taken : IsTaken store (ref_of d) v.ledger =
        subst
          (λ (r : Result IngestStatus × Booking S X).
            (a : IngestStatus)
            → r.0 ≡ ok a
            → a ≢ IngestStatus.unmatched
            → IsTaken store (ref_of d) r.1.ledger)
          h first.0 status refl matched in
      let still = history-IsTaken (ref_of d) events v taken in
      let second =
        (ingest_confirmed-Answers store ingestor later again (history events v)).1
          (rw same_ref still) in
      (second.0, second.1 answer)

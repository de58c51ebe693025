-- ===== src/Payout/Service/Replay.antt =====
-- A payout that is called again.
use cixtech.Prelude.{
  ap, ◌∙◌, Text, true, Bool-cases, inl, inr, [], Option, none, some, ◌≡◌, ◌≢◌, refl, arith, ◌⊎◌,
}
use cixtech.Errors.{Result, ok, err, Error}
use cixtech.Ledger.Store.{LedgerStore}
use cixtech.Payout.Authorization.{Crypto}
use cixtech.Payout.Journal.{IntentRow, load, mark_settled, settled_row}
use cixtech.Payout.Journal.Rows.{load-map}
use cixtech.Effect.{◌>>=◌, >>=-eq-ok}
use cixtech.Payout.World.{PayoutParams, PayoutResult, Moment, World, Deps, Standing, standing}
use cixtech.Payout.Service.{spend, spend_leased, payout, ℕ, acquire, List, lease_of, resume}
use cixtech.Payout.Service.Recorded.{
  IsRecorded, standing_settled, standing-is_settled, standing-is_broadcast, spend-IsRecorded,
  begin_intent_again, begin_intent-load, on_engine_frame, on_journal_writes,
}

Standing-cases :
    (s : Standing)
    → ((tx : Text) × (from : Text) × (s ≡ Standing.is_settled tx from))
      ⊎ ((tx : Text) × (from : Text) × (s ≡ Standing.is_broadcast tx from))
      ⊎ (s ≡ Standing.is_open)
Standing-cases (Standing.is_settled tx from) = inl (tx, from, refl)
Standing-cases (Standing.is_broadcast tx from) = inr (inl (tx, from, refl))
Standing-cases Standing.is_open = inr (inr refl)

load-mark_settled :
    (key : Text) (now : ℕ) (rows : List IntentRow) (r : IntentRow)
    → load key rows ≡ some r
    → load key (mark_settled key now rows) ≡ some (settled_row now r)
unfolding mark_settled
load-mark_settled key now rows r h =
    ground (arith, load-map key key (settled_row now) rows (λ q. refl))

-- The result of a payout that was settled before.
abbrev pub settled_before : (tx from : Text) → PayoutResult
settled_before tx from = record { tx_id = tx; from = from; legs = none }

replayed :
    {W : Type 0} {tx from : Text} {r : PayoutResult} {w v : W}
    → ◌≡◌ {A = Result PayoutResult × W} (ok (settled_before tx from), w) (ok r, v)
    → (tx ≡ r.tx_id) × (from ≡ r.from) × (w ≡ v)
replayed h = ground arith

refused :
    {W A : Type 0} {e : Error} {a : A} {w v : W} → ◌≡◌ {A = Result A × W} (err e, w) (ok a, v) → ⊥
refused h = cc

module _ {S X : Type 0} {IsSound : S → Type 0} (store : LedgerStore S IsSound) (c : Crypto)
    (deps : Deps S X) (journal : deps.journal ≡ true) where
  spend_leased-IsRecorded :
      (lease : Option ℕ) (m : Moment) (p : PayoutParams) (w v : World S X) (r : PayoutResult)
      (intent : IntentRow)
      → load p.idempotency_key w.intents ≡ some intent
      → spend_leased store c deps lease m p w ≡ (ok r, v)
      → IsRecorded p.idempotency_key r.tx_id r.from v.intents
  unfolding spend_leased
  spend_leased-IsRecorded none m p w v r intent found h =
      spend-IsRecorded store c deps journal m p w v r intent found h
  spend_leased-IsRecorded (some ttl_ms) m p w v r intent found h =
      let got = acquire ttl_ms (lease_of p) p.idempotency_key m.leased w.leases in
      let held : World S X = record w { leases = got.1 } in
      let run = spend store c deps m p held in
      elim (Bool-cases got.0) [
        | inl taken ↦
            let after = rw taken at h in
            let spent : run ≡ (ok r, run.1) =
              ap (λ (a : Result PayoutResult × World S X). (a.0, run.1)) after in
            let intents : run.1.intents ≡ v.intents =
              ap (λ (a : Result PayoutResult × World S X). a.1.intents) after in
            rw (← intents)
              (spend-IsRecorded store c deps journal m p held run.1 r intent found spent)
        | inr busy ↦ absurd (refused (rw busy at h))
      ]

  resume-IsRecorded :
      (m : Moment) (p : PayoutParams) (requested : ℕ) (w v : World S X) (r : PayoutResult)
      (intent : IntentRow) (stands : Standing)
      → standing (some intent) ≡ stands
      → load p.idempotency_key w.intents ≡ some intent
      → resume store c deps m p requested stands w ≡ (ok r, v)
      → IsRecorded p.idempotency_key r.tx_id r.from v.intents
  unfolding resume
  resume-IsRecorded m p requested w v r intent (Standing.is_settled tx from) e found h =
      let this = standing-is_settled tx from intent e in
      let (same_tx, same_from, same_world) = replayed h in
      (intent, rw (← same_world) found, rw (← same_tx, ← same_from) this)
  resume-IsRecorded m p requested w v r intent (Standing.is_broadcast tx from) e found h =
      let (_, w1, marked, done_at) = >>=-eq-ok _ _ _ _ _ h in
      let (_, w2, settles, marks) = >>=-eq-ok _ _ _ _ _ marked in
      let (same_tx, same_from, same_world) = replayed done_at in
      let before = on_engine_frame _ _ _ _ settles in
      let written = on_journal_writes store c deps journal _ _ _ _ marks in
      (
        settled_row m.settled intent,
        rw (← same_world, written)
            (load-mark_settled p.idempotency_key m.settled w2.intents intent
              (ap (load p.idempotency_key) before.0 ∙ found)),
        rw (← same_tx, ← same_from) (standing-is_broadcast tx from intent m.settled e),
      )
  resume-IsRecorded m p requested w v r intent Standing.is_open e found h =
      let (_, w1, checked, spent) = >>=-eq-ok _ _ _ _ _ h in
      let frame = on_engine_frame _ _ _ _ checked in
      spend_leased-IsRecorded deps.gather_lease m p w1 v r intent
        (ap (load p.idempotency_key) frame.0 ∙ found) spent

  payout-IsRecorded :
      (m : Moment) (p : PayoutParams) (w v : World S X) (r : PayoutResult)
      → payout store c deps m p w ≡ (ok r, v)
      → IsRecorded p.idempotency_key r.tx_id r.from v.intents
  unfolding payout
  payout-IsRecorded m p w v r h =
      let (begun, w1, begins, resumed) = >>=-eq-ok _ _ _ _ _ h in
      let (intent, e, found) = begin_intent-load store c deps journal m p w w1 begun begins in
      let resumed' = rw e at resumed in
      resume-IsRecorded m p _ w1 v r intent (standing (some intent)) refl found resumed'

  -- With a journal, a payout that has returned a transaction id is not made twice. Whatever the
  -- parameters of a later call under its idempotency key, the call returns the same transaction and
  -- the same sender, without the list of legs, and changes nothing: it sends no request, posts no
  -- entry, and takes no lease.
  pub payout_once :
      (m later : Moment) (p q : PayoutParams) (w v : World S X) (r : PayoutResult)
      → payout store c deps m p w ≡ (ok r, v)
      → r.tx_id ≢ []
      → q.idempotency_key ≡ p.idempotency_key
      → payout store c deps later q v ≡ (ok (settled_before r.tx_id r.from), v)
  unfolding payout resume ◌>>=◌
  payout_once m later p q w v r h nonempty same_key =
      let (intent, found, answers) = payout-IsRecorded m p w v r h in
      rw
        (
          begin_intent_again store c deps journal later q v intent
              (ap (λ (k : Text). load k v.intents) same_key ∙ found),
          standing_settled r.tx_id r.from intent nonempty answers,
        )
        refl

-- ===== src/Payout/Service/Recorded.antt =====
-- What the journal holds after a payout.
use cixtech.Prelude.{
  ap, sym, ◌∙◌, ℕ, Text, get_or, true, inl, inr, List, [], ◌∷◌, Option, none, some, ◌≡◌, ◌≢◌, refl,
  arith,
}
use cixtech.Prelude.Tests.{Option-cases}
use cixtech.Errors.{Result, ok}
use cixtech.Ledger.Store.{LedgerStore}
use cixtech.Payout.Types.{PayoutIntentStatus, NewIntent}
use cixtech.Payout.Authorization.{Crypto}
use cixtech.Payout.Journal.{
  IntentRow, load, begin, insert_intent, set_from, mark_broadcast, mark_settled, broadcasting_row,
  broadcast_row, settled_row,
}
use cixtech.Payout.Journal.Rows.{load-map}
use cixtech.Effect.{Effect, >>=-eq-ok}
use cixtech.Payout.World.{
  PayoutParams, PayoutLeg, PayoutResult, Moment, Engine, World, Deps, Standing, standing, filled,
  new_intent,
}
use cixtech.Payout.Calls.{begin_intent, on_engine, on_journal}
use cixtech.Pool.Types.{GatheredLeg}
use cixtech.Payout.Legs.{primary_from, primary_tx_id, listed_legs}
use cixtech.Payout.Service.{gather_legs, dispatch, complete, spend, spend_legs}

-- A row that answers a payout with this transaction and this sender.
pub record Answers (tx sender : Text) (r : IntentRow) : Type 0 where
  pub status : r.status ≡ PayoutIntentStatus.settled
  pub tx_id : r.tx_id ≡ some tx
  pub from : get_or r.from_address [] ≡ sender

abbrev pub IsRecorded : (key tx_id from : Text) → List IntentRow → Type 0
IsRecorded key tx_id from rows = (r : IntentRow) × (load key rows ≡ some r) × Answers tx_id from r

filled-some : (o : Option Text) (t : Text) → filled o ≡ some t → o ≡ some t
filled-some none t h = cc
filled-some (some []) t h = absurd (ground arith)
filled-some (some (c ∷ s)) t h = h

filled_nonempty : (o : Option Text) (t : Text) → t ≢ [] → o ≡ some t → filled o ≡ some t
filled_nonempty none t n h = cc
filled_nonempty (some []) t n h = absurd (n (ground (arith, h)))
filled_nonempty (some (c ∷ s)) t n h = h

pub standing_settled :
    (tx_id from : Text) (r : IntentRow)
    → tx_id ≢ []
    → Answers tx_id from r
    → standing (some r) ≡ Standing.is_settled tx_id from
unfolding standing
standing_settled tx_id from r n h =
    rw (h.status, filled_nonempty r.tx_id tx_id n h.tx_id, h.from) refl

pub standing-is_settled :
    (tx_id from : Text) (r : IntentRow)
    → standing (some r) ≡ Standing.is_settled tx_id from
    → Answers tx_id from r
unfolding standing
standing-is_settled tx_id from r h = ground (arith, filled-some r.tx_id tx_id)

-- A broadcast row answers for its payout once it is settled.
pub standing-is_broadcast :
    (tx_id from : Text) (r : IntentRow) (now : ℕ)
    → standing (some r) ≡ Standing.is_broadcast tx_id from
    → Answers tx_id from (settled_row now r)
unfolding standing
standing-is_broadcast tx_id from r now h =
    ground (arith, filled-some r.tx_id tx_id, filled-some r.from_address from)

pub begin_again :
    (id : Text) (now : ℕ) (i : NewIntent) (rows : List IntentRow) (r : IntentRow)
    → load i.idempotency_key rows ≡ some r
    → begin id now i rows ≡ ok (r, rows)
unfolding begin insert_intent
begin_again id now i rows r h = ground arith

-- The three writes of a payout that goes through.
written : (key tx from : Text) (gathered sent done_at : ℕ) → List IntentRow → List IntentRow
written key tx from gathered sent done_at rows =
    mark_settled key done_at (mark_broadcast key tx sent (set_from key from gathered rows))

load-written :
    (key tx from : Text) (gathered sent done_at : ℕ) (rows : List IntentRow) (r : IntentRow)
    → load key rows ≡ some r
    → load key (written key tx from gathered sent done_at rows)
      ≡ some (settled_row done_at (broadcast_row tx sent (broadcasting_row from gathered r)))
unfolding written mark_settled mark_broadcast set_from
load-written key tx from gathered sent done_at rows r h =
    let first = set_from key from gathered rows in
    let second = mark_broadcast key tx sent first in
    ground (
      arith,
      load-map key key (settled_row done_at) second (λ q. refl),
      load-map key key (broadcast_row tx sent) first (λ q. refl),
      load-map key key (broadcasting_row from gathered) rows (λ q. refl),
    )

module _ {S X : Type 0} where
  pub on_engine_frame :
      {A : Type 0} (action : Effect (Engine S X) A) (w v : World S X) (r : Result A)
      → on_engine action w ≡ (r, v)
      → (v.intents ≡ w.intents) × (v.leases ≡ w.leases)
  unfolding on_engine
  on_engine_frame action w v r h = let e : (on_engine action w).1 ≡ v = cc in rw (← e) (refl, refl)

module _ {S X : Type 0} {IsSound : S → Type 0} (store : LedgerStore S IsSound) (c : Crypto)
    (deps : Deps S X) (journal : deps.journal ≡ true) where
  pub on_journal_writes :
      (write : List IntentRow → List IntentRow) (w v : World S X) (u : Unit {0})
      → on_journal deps write w ≡ (ok u, v)
      → v.intents ≡ write w.intents
  unfolding on_journal
  on_journal_writes write w v u h =
      let e : (on_journal deps write w).1 ≡ v = cc in rw (← e, journal) refl

  pub begin_intent_again :
      (m : Moment) (p : PayoutParams) (w : World S X) (r : IntentRow)
      → load p.idempotency_key w.intents ≡ some r
      → begin_intent deps m p w ≡ (ok (some r), w)
  unfolding begin_intent
  begin_intent_again m p w r h =
      rw (journal, begin_again m.intent_id m.begun (new_intent p) w.intents r h) refl

  pub begin_intent-load :
      (m : Moment) (p : PayoutParams) (w v : World S X) (intent : Option IntentRow)
      → begin_intent deps m p w ≡ (ok intent, v)
      → (r : IntentRow) × (intent ≡ some r) × (load p.idempotency_key v.intents ≡ some r)
  unfolding begin_intent begin insert_intent
  begin_intent-load m p w v intent h = elim (Option-cases intent) [
    | inl absent ↦ absurd (ground (arith, journal, h, absent))
    | inr (r, e) ↦ (r, e, ground (arith, journal, h, e))
  ]

  dispatch-intents :
      (m : Moment) (p : PayoutParams) (legs : List GatheredLeg) (w v : World S X)
      (sent : List PayoutLeg)
      → dispatch store c deps m p legs w ≡ (ok sent, v)
      → v.intents ≡ set_from p.idempotency_key (primary_from legs) m.gathered w.intents
  unfolding dispatch
  dispatch-intents m p legs w v sent h =
      let (_, w1, e1, h1) = >>=-eq-ok _ _ _ _ _ h in
      let (_, w2, e2, h2) = >>=-eq-ok _ _ _ _ _ e1 in
      let sends = on_engine_frame _ _ _ _ h1 in
      let locks = on_engine_frame _ _ _ _ h2 in sends.0 ∙ (locks.0 ∙ on_journal_writes _ _ _ _ e2)

  complete-intents :
      (m : Moment) (p : PayoutParams) (legs : List GatheredLeg) (sent : List PayoutLeg)
      (w v : World S X) (r : PayoutResult)
      → complete store c deps m p legs sent w ≡ (ok r, v)
      → (r ≡ record {
        tx_id = primary_tx_id sent;
        from = primary_from legs;
        legs = listed_legs sent;
      })
        × (v.intents
            ≡ mark_settled p.idempotency_key m.settled
                (mark_broadcast p.idempotency_key (primary_tx_id sent) m.sent w.intents))
  unfolding complete
  complete-intents m p legs sent w v r h =
      let (_, w1, e1, h1) = >>=-eq-ok _ _ _ _ _ h in
      let (_, w2, e2, h2) = >>=-eq-ok _ _ _ _ _ e1 in
      let (_, w3, e3, h3) = >>=-eq-ok _ _ _ _ _ e2 in
      let (_, w4, e4, h4) = >>=-eq-ok _ _ _ _ _ e3 in
      let sweeps = on_engine_frame _ _ _ _ h2 in
      let marks = on_journal_writes _ _ _ _ h3 in
      let settles = on_engine_frame _ _ _ _ h4 in
      let broadcasts = on_journal_writes _ _ _ _ e4 in
      let last : w1 ≡ v = cc in
      (
        cc,
        ap World.intents (sym last)
            ∙ (sweeps.0
                ∙ (marks ∙ ap (mark_settled p.idempotency_key m.settled) (settles.0 ∙ broadcasts))),
      )

  pub spend-IsRecorded :
      (m : Moment) (p : PayoutParams) (w v : World S X) (r : PayoutResult) (intent : IntentRow)
      → load p.idempotency_key w.intents ≡ some intent
      → spend store c deps m p w ≡ (ok r, v)
      → IsRecorded p.idempotency_key r.tx_id r.from v.intents
  unfolding spend spend_legs gather_legs written
  spend-IsRecorded m p w v r intent found h =
      let (legs, w1, e1, h1) = >>=-eq-ok _ _ _ _ _ h in
      let (sent, w2, e2, h2) = >>=-eq-ok _ _ _ _ _ h1 in
      let gathers = on_engine_frame _ _ _ _ e1 in
      let dispatched = dispatch-intents m p legs w1 w2 sent e2 in
      let (result, completed) = complete-intents m p legs sent w2 v r h2 in
      let writes : v.intents
          ≡ written p.idempotency_key (primary_tx_id sent) (primary_from legs) m.gathered m.sent
              m.settled w.intents =
        completed
        ∙ ap
            (λ rows.
              mark_settled p.idempotency_key m.settled
                (mark_broadcast p.idempotency_key (primary_tx_id sent) m.sent rows))
            (dispatched
              ∙ ap (set_from p.idempotency_key (primary_from legs) m.gathered) gathers.0) in
      (
        settled_row m.settled (
            broadcast_row (primary_tx_id sent) m.sent
              (broadcasting_row (primary_from legs) m.gathered intent)),
        ap (load p.idempotency_key) writes
            ∙ load-written p.idempotency_key (primary_tx_id sent) (primary_from legs) m.gathered
                m.sent m.settled w.intents intent found,
        record {
          status = refl;
          tx_id = ap some (ap PayoutResult.tx_id (sym result));
          from = ap PayoutResult.from (sym result);
        },
      )

-- ===== src/Payout/Calls.antt =====
-- The calls that `PayoutService` makes to what it was given. An operation of the ledger, of the
-- policy or of the journal that throws leaves its part of the state as it was.
use cixtech.Prelude.{ℕ, Text, if◌then◌else◌, ◌++◌, Bool, List, [], ◌∷◌, Option, none, some}
use cixtech.Errors.{Result, ok, err}
use cixtech.Ledger.Store.{LedgerStore}
use cixtech.Policy.Types.{PayoutContext}
use cixtech.Policy.Engine.{check}
use cixtech.Pool.Types.{GatherStrategyKind}
use cixtech.Payout.Types.{PayoutRequest}
use cixtech.Payout.Journal.{IntentRow, begin}
use cixtech.Effect.{Effect, ◌>>◌, done, throw, attempt}
use cixtech.Payout.World.{
  PayoutParams, PrepareGatherInput, Moment, Engine, World, Deps, strategy_unknown, new_intent,
  settle_input,
}
use cixtech.Payout.Postings.{post_settled}

module _ {S X : Type 0} where
  unfoldable pub on_engine : {A : Type 0} → Effect (Engine S X) A → Effect (World S X) A
  on_engine m w = let r = m w.engine in (r.0, record w { engine = r.1 })

  abbrev pub on_ledger : {A : Type 0} → (S → Result (A × S)) → Effect (Engine S X) A
  on_ledger m e = let r = attempt e.ledger (m e.ledger) in (r.0, record e { ledger = r.1 })

  abbrev pub on_outside : {A : Type 0} → Effect X A → Effect (Engine S X) A
  on_outside m e = let r = m e.outside in (r.0, record e { outside = r.1 })

  -- A call that reads the engine's part of the state.
  abbrev pub reading : {A : Type 0} → (Engine S X → Result A) → Effect (Engine S X) A
  reading m e = (m e, e)

module _ {S X : Type 0} {IsSound : S → Type 0} (store : LedgerStore S IsSound) where
  unfoldable pub settle : ℕ → PayoutParams → Effect (Engine S X) Bool
  unfolding post_settled
  settle now p = on_ledger (post_settled store now (settle_input p))

module _ {S X : Type 0} (deps : Deps S X) where
  -- `this.journal?.…`, for a write to the journal.
  unfoldable pub on_journal : (List IntentRow → List IntentRow) → Effect (World S X) (Unit {0})
  on_journal write w = (ok tt, if deps.journal then record w { intents = write w.intents } else w)

  unfoldable pub begin_intent : Moment → PayoutParams → Effect (World S X) (Option IntentRow)
  unfolding begin
  begin_intent m p w =
      if deps.journal
      then (let r = attempt w.intents (begin m.intent_id m.begun (new_intent p) w.intents) in
          (
            elim r.0 [ err thrown ↦ err thrown | ok row ↦ ok (some row) ],
            record w { intents = r.1 },
          ))
      else (ok none, w)

  abbrev pub checked : Engine S X → Result X → Result (Unit {0}) × Engine S X
  checked e (err thrown) = (err thrown, e)
  checked e (ok x) = (ok tt, record e { outside = x })

  -- `policy.check(ctx, now)`, which keeps its state outside.
  unfoldable pub check_policy : PayoutContext → ℕ → Effect (Engine S X) (Unit {0})
  unfolding check
  check_policy ctx now e = checked e (check (deps.policy e.ledger) ctx now e.outside)

  -- The broadcaster is handed the request, whatever comes of it.
  unfoldable pub send : PayoutRequest → Effect (Engine S X) Text
  send req e =
      let r = deps.send req e.outside in
      (r.0, record e { outside = r.1; requests = e.requests ++ req ∷ [] })

  -- `gatherStrategies.forAddress(kind).prepare(input)`, where there is a registry.
  unfoldable pub prepare : GatherStrategyKind → PrepareGatherInput → Effect (Engine S X) (Unit {0})
  prepare kind input = elim deps.gather_strategies [
    | none ↦ done tt
    | some registry ↦ elim (registry kind) [
      | none ↦ throw strategy_unknown
      | some run ↦ on_outside (run input) >> done tt
    ]
  ]

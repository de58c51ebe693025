-- ===== src/Payout/Service/Spends.antt =====
-- The requests of the part of a payout that holds the lease.
use cixtech.Prelude.{
  ap, sym, ◌∙◌, ℕ, ℤ, ◌≤ℤ◌, ◌++◌, Bool-cases, List, [], inl, inr, ◌⊎◌, ◌≡◌, refl, subst,
}
use mathlib.Core.List.{append-nil, append_assoc}
use cixtech.Errors.{Result}
use cixtech.Ledger.Store.{LedgerStore}
use cixtech.Pool.Types.{GatheredLeg}
use cixtech.Pool.Gather.Legs.{legs_total}
use cixtech.Pool.Gather.Correct.{gather-ok}
use cixtech.Payout.Types.{PayoutRequest}
use cixtech.Payout.Authorization.{Crypto}
use cixtech.Effect.{Effect, ◌>>◌, >>=-split, >>=-keeps, >>=-view}
use cixtech.Payout.World.{PayoutParams, PayoutLeg, PayoutResult, Moment, Engine, World, Deps}
use cixtech.Payout.Calls.{on_engine, on_journal, settle, on_ledger}
use cixtech.Payout.Service.{
  gather_legs, dispatch, complete, spend, IntentRow, lock_payout, lock_input, leg_key, spend_legs,
}
use cixtech.Payout.Service.Requests.{
  AllPaid, AllPositive, AllCovered-AllPositive, PaysWithin, requested_total, send_legs-requests,
  PaysWithin-empty,
}
use cixtech.Payout.Service.Sweeps.{AllSwept, treasury_of, sweep_fee-requests}

module _ {S X : Type 0} where
  abbrev pub requests_of : World S X → List PayoutRequest
  requests_of w = w.engine.requests

  -- No request was handed over since.
  abbrev pub Unsent : World S X → World S X → Type 0
  Unsent w v = requests_of v ≡ requests_of w

  pub on_engine-requests :
      {A : Type 0} (action : Effect (Engine S X) A) (w : World S X)
      → requests_of (on_engine action w).1 ≡ (action w.engine).1.requests
  unfolding on_engine
  on_engine-requests action w = refl

  -- A part that sends nothing, and then one that hands over some requests.
  adds_after :
      {A B : Type 0} (P : List PayoutRequest → Type 0) (first : Effect (World S X) A)
      (action : Effect (Engine S X) B) (w : World S X)
      → Unsent w (first w).1
      → P []
      → ((e : Engine S X)
          → (qs : List PayoutRequest) × ((action e).1.requests ≡ e.requests ++ qs) × P qs)
      → (qs : List PayoutRequest) × (requests_of ((first >> on_engine action) w).1
          ≡ requests_of w ++ qs)
        × P qs
  adds_after {B = B} P first action w before nothing adds =
      elim (>>=-split first (λ _. on_engine action) w) [
        | inl (x, _, whole) ↦ (
          [],
          ap (λ (r : Result B × World S X). requests_of r.1) whole
              ∙ (before ∙ sym (append-nil (requests_of w))),
          nothing,
        )
        | inr (x, _, whole) ↦
            let (qs, sent, holds) = adds (first w).1.engine in
            (
              qs,
              ap (λ (r : Result B × World S X). requests_of r.1) whole
                  ∙ (on_engine-requests action (first w).1
                      ∙ (sent ∙ ap (λ (rs : List PayoutRequest). rs ++ qs) before)),
              holds,
            )
      ]

-- Requests that were handed over between two times: payments in the payout's asset, on its chain
-- and to its destination, no more than its amount in all, and then sweeps to the chain's treasury.
pub record Spends {S X : Type 0} (deps : Deps S X) (p : PayoutParams)
    (before after : List PayoutRequest) : Type 0 where
  pub payments : List PayoutRequest
  pub sweeps : List PayoutRequest
  pub handed : after ≡ before ++ (payments ++ sweeps)
  pub paid : AllPaid p payments
  pub bound : requested_total payments ≤ℤ p.amount_base_units
  pub swept : AllSwept p (treasury_of deps.fee_sweep p.chain) sweeps

module _ {S X : Type 0} {IsSound : S → Type 0} (store : LedgerStore S IsSound) (c : Crypto)
    (deps : Deps S X) (m : Moment) (p : PayoutParams) where
  pub on_journal-Unsent :
      (write : List IntentRow → List IntentRow) (w v : World S X)
      → Unsent w v
      → Unsent w (on_journal deps write v).1
  unfolding on_journal
  on_journal-Unsent write w v h = elim (Bool-cases deps.journal) [
    | inl kept ↦ rw kept h
    | inr bare ↦ rw bare h
  ]

  pub settle-Unsent :
      (now : ℕ) (w v : World S X) → Unsent w v → Unsent w (on_engine (settle store now p) v).1
  unfolding on_engine settle
  settle-Unsent now w v h = h

  lock-Unsent :
      (now : ℕ) (w v : World S X)
      → Unsent w v
      → Unsent w (on_engine (on_ledger (lock_payout store now (lock_input p))) v).1
  unfolding on_engine
  lock-Unsent now w v h = h

  dispatch-requests :
      (legs : List GatheredLeg) (w : World S X)
      → AllPositive legs
      → (qs : List PayoutRequest) × (requests_of (dispatch store c deps m p legs w).1
          ≡ requests_of w ++ qs)
        × PaysWithin p (legs_total legs) qs
  unfolding dispatch
  dispatch-requests legs w h =
      adds_after (PaysWithin p (legs_total legs)) _ _ w
        (>>=-keeps (Unsent w) _ _ (on_journal-Unsent _ w) (λ _. lock-Unsent m.locked w) w refl)
        (PaysWithin-empty p legs h)
        (λ e. send_legs-requests c deps m p (leg_key p.idempotency_key legs) 0 legs e h)

  complete-requests :
      (legs : List GatheredLeg) (sent : List PayoutLeg) (w : World S X)
      → (qs : List PayoutRequest) × (requests_of (complete store c deps m p legs sent w).1
          ≡ requests_of w ++ qs)
        × AllSwept p (treasury_of deps.fee_sweep p.chain) qs
  unfolding complete
  complete-requests legs sent w =
      let (qs, swept, all) =
        adds_after (AllSwept p (treasury_of deps.fee_sweep p.chain)) _ _ w
          (>>=-keeps (Unsent w) _ _
            (>>=-keeps (Unsent w) _ _ (on_journal-Unsent _ w) (λ _. settle-Unsent m.posted w))
            (λ _. on_journal-Unsent _ w) w refl)
          tt (sweep_fee-requests store deps m p legs deps.fee_sweep) in
      (qs, >>=-view requests_of _ _ (λ _ v. refl) w ∙ swept, all)

  spend_from :
      (legs : List GatheredLeg) (w : World S X)
      → AllPositive legs
      → legs_total legs ≡ p.amount_base_units
      → Spends deps p (requests_of w) (requests_of (spend_legs store c deps m p legs w).1)
  unfolding spend_legs
  spend_from legs w positive total =
      let (qs, sent, within) = dispatch-requests legs w positive in
      elim (>>=-split (dispatch store c deps m p legs) (complete store c deps m p legs) w) [
        | inl (x, _, whole) ↦ record {
          payments = qs;
          sweeps = [];
          handed =
              ap (λ (r : Result PayoutResult × World S X). requests_of r.1) whole
              ∙ (sent
                  ∙ ap (λ (rs : List PayoutRequest). requests_of w ++ rs) (sym (append-nil qs)));
          paid = within.paid;
          bound = subst (λ (t : ℤ). requested_total qs ≤ℤ t) total within.bound;
          swept = tt;
        }
        | inr (legs_sent, _, whole) ↦
            let (fees, completed, swept) = complete-requests legs legs_sent _ in
            record {
              payments = qs;
              sweeps = fees;
              handed =
                  ap (λ (r : Result PayoutResult × World S X). requests_of r.1) whole
                  ∙ (completed
                      ∙ (ap (λ (rs : List PayoutRequest). rs ++ fees) sent
                          ∙ append_assoc (requests_of w) qs fees));
              paid = within.paid;
              bound = subst (λ (t : ℤ). requested_total qs ≤ℤ t) total within.bound;
              swept = swept;
            }
      ]

  -- Nothing is sent unless legs are gathered; what is sent then stays within the amount.
  pub spend_guarded :
      (w : World S X)
      → Unsent w (spend store c deps m p w).1
        ⊎ Spends deps p (requests_of w) (requests_of (spend store c deps m p w).1)
  unfolding spend gather_legs on_engine
  spend_guarded w = elim (>>=-split (gather_legs store c deps p) (spend_legs store c deps m p) w) [
    | inl (x, _, whole) ↦ inl (ap (λ (r : Result PayoutResult × World S X). requests_of r.1) whole)
    | inr (legs, gathered, whole) ↦
        let e = w.engine in
        let (_, total, covered) =
          gather-ok (deps.balance e.outside) p.chain p.asset p.amount_base_units
            (deps.addresses p.tenant p.merchant p.chain e.outside) legs gathered in
        inr (
          subst (λ (v : World S X). Spends deps p (requests_of w) (requests_of v))
            (sym (ap (λ (r : Result PayoutResult × World S X). r.1) whole))
            (spend_from legs w
              (AllCovered-AllPositive (deps.balance e.outside) p.chain p.asset legs covered) total))
  ]

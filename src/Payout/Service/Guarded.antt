-- ===== src/Payout/Service/Guarded.antt =====
-- What stands before a request: the policy, the lease and the legs that were gathered.
use cixtech.Prelude.{
  ap, sym, ◌∙◌, ℕ, true, Bool-cases, List, Option, none, some, inl, inr, ◌⊎◌, ◌≡◌, refl, arith,
  subst,
}
use cixtech.Errors.{Result, ok, Result-cases}
use cixtech.Ledger.Store.{LedgerStore}
use cixtech.Policy.Types.{PayoutContext}
use cixtech.Policy.Engine.{check}
use cixtech.Payout.Types.{PayoutRequest}
use cixtech.Payout.Authorization.{Crypto}
use cixtech.Effect.{>>=-split, >>=-keeps}
use cixtech.Payout.World.{PayoutParams, PayoutResult, Moment, Engine, World, Deps, Standing}
use cixtech.Payout.Calls.{on_engine, check_policy, begin_intent}
use cixtech.Payout.Service.{
  context_of, spend_leased, resume, payout, IntentRow, acquire, lease_of, requested_at, standing,
}
use cixtech.Payout.Service.Spends.{
  requests_of, Unsent, Spends, on_journal-Unsent, settle-Unsent, spend_guarded,
}

-- The requests of a payout that the policy permits, while its lease was free.
pub record IsGuarded {S X : Type 0} (deps : Deps S X) (m : Moment) (p : PayoutParams)
    (w v : World S X) : Type 0 where
  pub requested : ℕ
  pub outside : X
  pub permitted :
      check (deps.policy w.engine.ledger) (context_of p requested) m.now w.engine.outside
      ≡ ok outside
  pub exclusive :
      (ttl_ms : ℕ)
      → deps.gather_lease ≡ some ttl_ms
      → (acquire ttl_ms (lease_of p) p.idempotency_key m.leased w.leases).0 ≡ true
  pub spends : Spends deps p w.engine.requests v.engine.requests

module _ {S X : Type 0} {IsSound : S → Type 0} (store : LedgerStore S IsSound) (c : Crypto)
    (deps : Deps S X) (m : Moment) (p : PayoutParams) where
  spend_leased_guarded :
      (lease : Option ℕ) (w : World S X)
      → Unsent w (spend_leased store c deps lease m p w).1
        ⊎ (((ttl_ms : ℕ)
              → lease ≡ some ttl_ms
              → (acquire ttl_ms (lease_of p) p.idempotency_key m.leased w.leases).0 ≡ true)
            × Spends deps p (requests_of w) (requests_of (spend_leased store c deps lease m p w).1))
  unfolding spend_leased
  spend_leased_guarded none w = elim (spend_guarded store c deps m p w) [
    | inl unsent ↦ inl unsent
    | inr spends ↦ inr (λ ttl_ms e. absurd (cc), spends)
  ]
  spend_leased_guarded (some ttl_ms) w =
      let got = acquire ttl_ms (lease_of p) p.idempotency_key m.leased w.leases in
      elim (Bool-cases got.0) [
        | inl taken ↦ elim (spend_guarded store c deps m p (record w { leases = got.1 })) [
          | inl unsent ↦ inl (rw taken unsent)
          | inr spends ↦
              inr (λ other e. let e' : ttl_ms ≡ other = cc in rw (← e') taken, rw taken spends)
        ]
        | inr busy ↦ inl (rw busy refl)
      ]

  begin_intent-engine :
      (w : World S X)
      → ((begin_intent deps m p w).1.engine ≡ w.engine)
        × ((begin_intent deps m p w).1.leases ≡ w.leases)
  unfolding begin_intent
  begin_intent-engine w = elim (Bool-cases deps.journal) [
    | inl kept ↦ rw kept (refl, refl)
    | inr bare ↦ rw bare (refl, refl)
  ]

  check_policy-ok :
      (ctx : PayoutContext) (e : Engine S X) (u : Unit {0})
      → (check_policy deps ctx m.now e).0 ≡ ok u
      → (x : X) × (check (deps.policy e.ledger) ctx m.now e.outside ≡ ok x)
  unfolding check_policy
  check_policy-ok ctx e u h =
      elim (Result-cases (check (deps.policy e.ledger) ctx m.now e.outside)) [
        | inl (x, passed) ↦ (x, passed)
        | inr (thrown, refused) ↦ absurd (ground (arith, h, refused))
      ]

  check_policy-requests :
      (ctx : PayoutContext) (e : Engine S X)
      → (check_policy deps ctx m.now e).1.requests ≡ e.requests
  unfolding check_policy
  check_policy-requests ctx e =
      elim (Result-cases (check (deps.policy e.ledger) ctx m.now e.outside)) [
        | inl (x, passed) ↦ rw passed refl
        | inr (thrown, refused) ↦ rw refused refl
      ]

  resume-IsGuarded :
      (requested : ℕ) (stands : Standing) (w : World S X)
      → Unsent w (resume store c deps m p requested stands w).1
        ⊎ IsGuarded deps m p w (resume store c deps m p requested stands w).1
  unfolding resume on_engine
  resume-IsGuarded requested (Standing.is_settled tx from) w = inl refl
  resume-IsGuarded requested (Standing.is_broadcast tx from) w = inl (
      >>=-keeps (Unsent w) _ _
        (>>=-keeps (Unsent w) _ _ (settle-Unsent store c deps m p m.posted w)
          (λ _. on_journal-Unsent store c deps m p _ w))
        (λ _ v k. k) w refl)
  resume-IsGuarded requested Standing.is_open w =
      let ctx = context_of p requested in
      let checking = on_engine (check_policy deps ctx m.now) in
      let checked = check_policy-requests ctx w.engine in
      let spending = spend_leased store c deps deps.gather_lease m p in
      elim (>>=-split checking (λ _. spending) w) [
        | inl (thrown, _, whole) ↦
            inl (ap (λ (r : Result PayoutResult × World S X). requests_of r.1) whole ∙ checked)
        | inr (u, passed, whole) ↦
            let at_end = ap (λ (r : Result PayoutResult × World S X). requests_of r.1) whole in
            let (x, permitted) = check_policy-ok ctx w.engine u passed in
            elim (spend_leased_guarded deps.gather_lease (checking w).1) [
              | inl unsent ↦ inl (at_end ∙ (unsent ∙ checked))
              | inr (exclusive, spends) ↦ inr (record {
                requested = requested;
                outside = x;
                permitted = permitted;
                exclusive = exclusive;
                spends =
                    subst
                      (λ (rs : List PayoutRequest).
                        Spends deps p rs
                          (requests_of (resume store c deps m p requested Standing.is_open w).1))
                      checked
                      (subst
                        (λ (rs : List PayoutRequest). Spends deps p (requests_of (checking w).1) rs)
                        (sym at_end) spends);
              })
            ]
      ]

  -- A payout hands over no request unless the policy permits it, asked with the time of the call and
  -- a time of request, and, where there are gather leases, the lease of the merchant's pool on the
  -- chain was free. The requests are then payments in the payout's asset, on its chain and to its
  -- destination, no more than its amount in all, followed by sweeps of fees to the treasury of the
  -- chain. This holds of a call that throws as well.
  pub payout-IsGuarded :
      (w : World S X)
      → ((payout store c deps m p w).1.engine.requests ≡ w.engine.requests)
        ⊎ IsGuarded deps m p w (payout store c deps m p w).1
  unfolding payout
  payout-IsGuarded w =
      let begins = begin_intent deps m p in
      let (same_engine, same_leases) = begin_intent-engine w in
      let continue =
        λ (i : Option IntentRow). resume store c deps m p (requested_at m i) (standing i) in
      elim (>>=-split begins continue w) [
        | inl (thrown, _, whole) ↦ inl (
            ap (λ (r : Result PayoutResult × World S X). requests_of r.1) whole
            ∙ ap Engine.requests same_engine)
        | inr (i, _, whole) ↦
            let at_end = sym (ap (λ (r : Result PayoutResult × World S X). r.1) whole) in
            elim (resume-IsGuarded (requested_at m i) (standing i) (begins w).1) [
              | inl unsent ↦
                  inl (sym (ap requests_of at_end) ∙ (unsent ∙ ap Engine.requests same_engine))
              | inr guarded ↦ inr (record {
                requested = guarded.requested;
                outside = guarded.outside;
                permitted = rw (← same_engine) guarded.permitted;
                exclusive = rw (← same_leases) guarded.exclusive;
                spends =
                    subst (λ (v : World S X). Spends deps p w.engine.requests (requests_of v))
                      at_end
                      (subst
                        (λ (e : Engine S X).
                          Spends deps p e.requests (requests_of (continue i (begins w).1).1))
                        same_engine guarded.spends);
              })
            ]
      ]

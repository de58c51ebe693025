-- ===== src/Payout/Service/Released.antt =====
-- The gather lease of a payout.
use cixtech.Prelude.{
  ℕ, Text, same, if◌then◌else◌, ◌&&◌, Bool, true, false, Bool-cases, inl, inr, List, [], ◌∷◌,
  Option, some, ◌≡◌, refl, arith, subst, sym,
}
use cixtech.Ledger.Store.{LedgerStore}
use cixtech.Pool.Lease.{LeaseRow, acquire, release}
use cixtech.Payout.Authorization.{Crypto}
use cixtech.Effect.{Effect, >>=-keeps}
use cixtech.Payout.World.{PayoutParams, Moment, Engine, World, Deps, Standing}
use cixtech.Payout.Calls.{begin_intent, on_engine, on_journal}
use cixtech.Payout.Service.{
  lease_of, spend_leased, resume, payout, IntentRow, requested_at, standing,
}

-- The holder has a lease of the key.
unfoldable pub is_held : (key holder : Text) → List LeaseRow → Bool
is_held key holder [] = false
is_held key holder (r ∷ rows) =
    if same r.key key && same r.holder holder then true else is_held key holder rows

is_held-release :
    (key holder : Text) (rows : List LeaseRow)
    → is_held key holder (release key holder rows) ≡ false
unfolding is_held release
is_held-release key holder [] = refl
is_held-release key holder (r ∷ rows) = ground (arith, is_held-release key holder rows)

-- An acquisition that fails gives nobody a lease.
is_held-acquire :
    (ttl_ms : ℕ) (key holder : Text) (now : ℕ) (rows : List LeaseRow)
    → (acquire ttl_ms key holder now rows).0 ≡ false
    → is_held key holder rows ≡ false
    → is_held key holder (acquire ttl_ms key holder now rows).1 ≡ false
unfolding is_held acquire
is_held-acquire ttl_ms key holder now [] refused free = absurd (cc)
is_held-acquire ttl_ms key holder now (r ∷ rows) refused free =
    ground (arith, is_held-acquire ttl_ms key holder now rows)

module _ {S X : Type 0} where
  -- The payout has no lease.
  abbrev pub IsFree : PayoutParams → World S X → Type 0
  IsFree p w = is_held (lease_of p) p.idempotency_key w.leases ≡ false

  on_engine-IsFree :
      {A : Type 0} (p : PayoutParams) (action : Effect (Engine S X) A) (w : World S X)
      → IsFree p w
      → IsFree p (on_engine action w).1
  unfolding on_engine
  on_engine-IsFree p action w h = h

module _ {S X : Type 0} {IsSound : S → Type 0} (store : LedgerStore S IsSound) (c : Crypto)
    (deps : Deps S X) (ttl_ms : ℕ) (p : PayoutParams) where
  spend_leased-IsFree :
      (m : Moment) (w : World S X)
      → IsFree p w
      → IsFree p (spend_leased store c deps (some ttl_ms) m p w).1
  unfolding spend_leased
  spend_leased-IsFree m w h =
      let got = acquire ttl_ms (lease_of p) p.idempotency_key m.leased w.leases in
      elim (Bool-cases got.0) [
        | inl taken ↦ rw taken (is_held-release (lease_of p) p.idempotency_key _)
        | inr busy ↦
            rw busy (is_held-acquire ttl_ms (lease_of p) p.idempotency_key m.leased w.leases busy h)
      ]

  on_journal-IsFree :
      (write : List IntentRow → List IntentRow) (w : World S X)
      → IsFree p w
      → IsFree p (on_journal deps write w).1
  unfolding on_journal
  on_journal-IsFree write w h = ground arith

  begin_intent-IsFree :
      (m : Moment) (w : World S X) → IsFree p w → IsFree p (begin_intent deps m p w).1
  unfolding begin_intent
  begin_intent-IsFree m w h = elim (Bool-cases deps.journal) [
    | inl kept ↦ ground (arith, kept)
    | inr bare ↦ ground (arith, bare)
  ]

  resume-IsFree :
      (leased : deps.gather_lease ≡ some ttl_ms) (m : Moment) (requested : ℕ) (stands : Standing)
      (w : World S X)
      → IsFree p w
      → IsFree p (resume store c deps m p requested stands w).1
  unfolding resume
  resume-IsFree leased m requested (Standing.is_settled tx from) w h = h
  resume-IsFree leased m requested (Standing.is_broadcast tx from) w h =
      >>=-keeps (IsFree p) _ _
        (>>=-keeps (IsFree p) _ _ (on_engine-IsFree p _) (λ _. on_journal-IsFree _)) (λ _ v k. k) w
        h
  resume-IsFree leased m requested Standing.is_open w h =
      >>=-keeps (IsFree p) _ _ (on_engine-IsFree p _)
        (λ _ v k.
          subst (λ (lease : Option ℕ). IsFree p (spend_leased store c deps lease m p v).1)
            (sym leased) (spend_leased-IsFree m v k))
        w h

  -- With a gather lease, a payout whose key holds no lease of the merchant's pool before the call
  -- holds none after it, whether the call returns or throws, and at whichever step it does.
  pub payout_releases :
      (leased : deps.gather_lease ≡ some ttl_ms) (m : Moment) (w : World S X)
      → IsFree p w
      → IsFree p (payout store c deps m p w).1
  unfolding payout
  payout_releases leased m w h =
      >>=-keeps (IsFree p) _ _ (begin_intent-IsFree m)
        (λ intent. resume-IsFree leased m (requested_at m intent) (standing intent)) w h

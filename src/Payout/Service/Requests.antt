-- ===== src/Payout/Service/Requests.antt =====
-- The requests that a payout hands to the broadcaster, the ones of a call that throws included.
use cixtech.Payout.Authorization.{Crypto}
use cixtech.Pool.Gather.{AddressBalance}
use cixtech.Pool.Types.{GatheredLeg, GatherStrategyKind}
use cixtech.Prelude.{
  ap, sym, ◌∙◌, ℕ, suc, ℤ, pos, ◌+ℤ◌, ◌≤ℤ◌, ◌<ℤ◌, int_laws, Text, ◌++◌, List, [], ◌∷◌, inl, inr,
  ◌⊎◌, ◌≡◌, refl, arith,
}
use mathlib.Core.List.{append-nil, append_assoc}
use cixtech.Pool.Gather.Legs.{legs_total, AllCovered}
use cixtech.Errors.{Result, ok, err, Error}
use cixtech.Payout.Types.{PayoutRequest}
use cixtech.Effect.{Effect, ◌>>=◌, ◌>>◌, >>=-split, run_on, done}
use cixtech.Payout.World.{PayoutParams, PayoutLeg, PrepareGatherInput, Moment, Engine, Deps}
use cixtech.Payout.Calls.{prepare, send}
use cixtech.Payout.Legs.{leg_request, leg_preparation, send_legs, push_leg}

abbrev pub requested_total : List PayoutRequest → ℤ
requested_total [] = pos 0
requested_total (q ∷ qs) = q.amount_base_units +ℤ requested_total qs

-- Every request pays in the payout's asset, on its chain and to its destination.
abbrev pub AllPaid : PayoutParams → List PayoutRequest → Type 0
AllPaid p [] = Unit {0}
AllPaid p (q ∷ qs) =
    ((q.to_address ≡ p.destination) × (q.chain ≡ p.chain) × (q.asset ≡ p.asset)) × AllPaid p qs

abbrev pub AllPositive : List GatheredLeg → Type 0
AllPositive [] = Unit {0}
AllPositive (leg ∷ legs) = (pos 0 <ℤ leg.amount_base_units) × AllPositive legs

AllPositive-legs_total : (legs : List GatheredLeg) → AllPositive legs → pos 0 ≤ℤ legs_total legs
AllPositive-legs_total [] h = omega arith
AllPositive-legs_total (leg ∷ legs) h = let rest = AllPositive-legs_total legs h.1 in grind int_laws

pub AllCovered-AllPositive :
    (balance : AddressBalance) (chain asset : Text) (legs : List GatheredLeg)
    → AllCovered balance chain asset legs
    → AllPositive legs
AllCovered-AllPositive balance chain asset [] h = tt
AllCovered-AllPositive balance chain asset (leg ∷ legs) h =
    (h.0.0, AllCovered-AllPositive balance chain asset legs h.1)

module _ {S X : Type 0} (deps : Deps S X) where
  pub prepare-requests :
      (kind : GatherStrategyKind) (input : PrepareGatherInput) (e : Engine S X)
      → (prepare deps kind input e).1.requests ≡ e.requests
  unfolding prepare ◌>>=◌
  prepare-requests kind input e = ground arith

  send-requests :
      (req : PayoutRequest) (e : Engine S X) → (send deps req e).1.requests ≡ e.requests ++ req ∷ []
  unfolding send
  send-requests req e = refl

  -- A leg that is prepared is requested, and no other.
  pub prepare_send-requests :
      (kind : GatherStrategyKind) (input : PrepareGatherInput) (req : PayoutRequest)
      (e : Engine S X)
      → let r = (prepare deps kind input >> send deps req) e in
        (((x : Error) × (r.0 ≡ err x)) × (r.1.requests ≡ e.requests))
        ⊎ (r.1.requests ≡ e.requests ++ req ∷ [])
  prepare_send-requests kind input req e =
      elim (>>=-split (prepare deps kind input) (λ _. send deps req) e) [
        | inl (x, _, whole) ↦ inl (
          (x, ap (λ (r : Result Text × Engine S X). r.0) whole),
          ap (λ (r : Result Text × Engine S X). r.1.requests) whole ∙ prepare-requests kind input e,
        )
        | inr (x, _, whole) ↦ inr (
            ap (λ (r : Result Text × Engine S X). r.1.requests) whole
            ∙ (send-requests req (prepare deps kind input e).1
                ∙ ap (λ (qs : List PayoutRequest). qs ++ req ∷ []) (prepare-requests kind input e)))
      ]

-- The requests that come from legs: they pay to the destination, and no more than the legs hold.
pub record PaysWithin (p : PayoutParams) (limit : ℤ) (qs : List PayoutRequest) : Type 0 where
  pub paid : AllPaid p qs
  pub bound : requested_total qs ≤ℤ limit

pub PaysWithin-empty :
    (p : PayoutParams) (legs : List GatheredLeg)
    → AllPositive legs
    → PaysWithin p (legs_total legs) []
PaysWithin-empty p legs h = record { paid = tt; bound = AllPositive-legs_total legs h }

module _ {S X : Type 0} (c : Crypto) (deps : Deps S X) (m : Moment) (p : PayoutParams) where
  PaysWithin-leg :
      (key : Text) (leg : GatheredLeg) (legs : List GatheredLeg) (qs : List PayoutRequest)
      → PaysWithin p (legs_total legs) qs
      → PaysWithin p (legs_total (leg ∷ legs)) (leg_request c deps m p key leg ∷ qs)
  PaysWithin-leg key leg legs qs h = record {
    paid = ((refl, refl, refl), h.paid);
    bound = let within = h.bound in grind int_laws;
  }

  push_leg-requests :
      (leg : GatheredLeg) (rest : Effect (Engine S X) (List PayoutLeg)) (tx_id : Text)
      (e : Engine S X)
      → (push_leg c deps leg rest tx_id e).1.requests ≡ (rest e).1.requests
  unfolding ◌>>=◌
  push_leg-requests leg rest tx_id e = pushed (rest e)
    where
      pushed :
          (r : Result (List PayoutLeg) × Engine S X)
          → (run_on r (λ sent. done (
              record {
                address = leg.source.address;
                tx_id = tx_id;
                amount_base_units = leg.amount_base_units;
              }
              ∷ sent))).1.requests
            ≡ r.1.requests
      pushed (err x, v) = refl
      pushed (ok x, v) = refl

  -- The loop over the legs hands over requests for some of them, from the first on.
  pub send_legs-requests :
      (key_of : ℕ → Text) (i : ℕ) (legs : List GatheredLeg) (e : Engine S X)
      → AllPositive legs
      → (qs : List PayoutRequest) × ((send_legs c deps m p key_of i legs e).1.requests
          ≡ e.requests ++ qs)
        × PaysWithin p (legs_total legs) qs
  unfolding send_legs
  send_legs-requests key_of i [] e h = ([], sym (append-nil e.requests), PaysWithin-empty p [] h)
  send_legs-requests key_of i (leg ∷ legs) e h =
      let req = leg_request c deps m p (key_of i) leg in
      let first =
        prepare deps leg.source.gather_strategy (leg_preparation c deps p (key_of i) leg)
        >> send deps req in
      let none_sent = PaysWithin-empty p (leg ∷ legs) h in
      let one_sent = PaysWithin-leg (key_of i) leg legs [] (PaysWithin-empty p legs h.1) in
      let this =
        prepare_send-requests deps leg.source.gather_strategy
          (leg_preparation c deps p (key_of i) leg) req e in
      elim (>>=-split first (push_leg c deps leg (send_legs c deps m p key_of (suc i) legs)) e) [
        | inl (x, _, whole) ↦
            let at_end = ap (λ (r : Result (List PayoutLeg) × Engine S X). r.1.requests) whole in
            elim this [
              | inl (_, same) ↦ ([], at_end ∙ (same ∙ sym (append-nil e.requests)), none_sent)
              | inr sent ↦ (req ∷ [], at_end ∙ sent, one_sent)
            ]
        | inr (tx_id, went, whole) ↦ elim this [
          | inl ((x, threw), _) ↦ absurd (cc)
          | inr sent ↦
              let (qs, rest, within) = send_legs-requests key_of (suc i) legs (first e).1 h.1 in
              let at_end = ap (λ (r : Result (List PayoutLeg) × Engine S X). r.1.requests) whole in
              (
                req ∷ qs,
                at_end
                    ∙ (push_leg-requests leg _ tx_id (first e).1
                        ∙ (rest
                            ∙ (ap (λ (rs : List PayoutRequest). rs ++ qs) sent
                                ∙ append_assoc e.requests (req ∷ []) qs))),
                PaysWithin-leg (key_of i) leg legs qs within,
              )
        ]
      ]

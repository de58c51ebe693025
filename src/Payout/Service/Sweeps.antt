-- ===== src/Payout/Service/Sweeps.antt =====
-- The requests of the fee sweep after a payout.
use cixtech.Payout.Postings.{post_swept}
use cixtech.Pool.Types.{GatheredLeg}
use cixtech.Sweep.{FeeSweepLeg, FeeSweepPlan}
use cixtech.Payout.Calls.{on_ledger, prepare, send}
use cixtech.Ledger.Store.{LedgerStore}
use cixtech.Prelude.{
  ap, sym, ◌∙◌, ℕ, suc, Text, ◌++◌, Bool, Bool-cases, List, [], ◌∷◌, Option, none, some, inl, inr,
  ◌⊎◌, ◌≡◌, refl,
}
use mathlib.Core.List.{append-nil, append_assoc}
use cixtech.Policy.Approvals.{is_empty}
use cixtech.Errors.{Result, ok, err}
use cixtech.Payout.Types.{PayoutRequest}
use cixtech.Effect.{◌>>=◌, ◌>>◌, >>=-split}
use cixtech.Payout.World.{PayoutParams, Moment, Engine, Deps, FeeSweep}
use cixtech.Payout.FeeSweep.{
  sweep_leg, sweep_legs, sweep_fee, fee_request, fee_key, fee_preparation, sweep_planned, sweep_to,
  fee_input,
}
use cixtech.Payout.Service.Requests.{prepare_send-requests}

-- The treasury that fees of the chain are swept to.
abbrev pub treasury_of : {S X : Type 0} → Option (FeeSweep S X) → Text → Option Text
treasury_of none chain = none
treasury_of (some fee_sweep) chain = fee_sweep.treasury_address_for chain

-- Every request pays in the payout's asset, on its chain and to the treasury.
abbrev pub AllSwept : PayoutParams → Option Text → List PayoutRequest → Type 0
AllSwept p treasury [] = Unit {0}
AllSwept p treasury (q ∷ qs) =
    ((some q.to_address ≡ treasury) × (q.chain ≡ p.chain) × (q.asset ≡ p.asset))
    × AllSwept p treasury qs

module _ {S X : Type 0} {IsSound : S → Type 0} (store : LedgerStore S IsSound) (deps : Deps S X)
    (m : Moment) (p : PayoutParams) where
  sweep_leg-requests :
      (treasury : Text) (i : ℕ) (leg : FeeSweepLeg) (e : Engine S X)
      → ((sweep_leg store deps m p treasury i leg e).1.requests ≡ e.requests)
        ⊎ ((sweep_leg store deps m p treasury i leg e).1.requests
            ≡ e.requests ++ fee_request p treasury (fee_key p i) leg ∷ [])
  unfolding sweep_leg
  sweep_leg-requests treasury i leg e =
      let key = fee_key p i in
      let req = fee_request p treasury key leg in
      let kind = leg.source.gather_strategy in
      let this = prepare_send-requests deps kind (fee_preparation p key leg) req e in
      let at_end : (sweep_leg store deps m p treasury i leg e).1.requests
          ≡ ((prepare deps kind (fee_preparation p key leg) >> send deps req) e).1.requests =
        elim (>>=-split (prepare deps kind (fee_preparation p key leg) >> send deps req)
          (λ _. on_ledger (post_swept store (m.swept i) (fee_input p key leg))) e) [
            | inl (x, _, whole) ↦ ap (λ (r : Result Bool × Engine S X). r.1.requests) whole
            | inr (x, _, whole) ↦ ap (λ (r : Result Bool × Engine S X). r.1.requests) whole
          ] in
      elim this [ inl (_, same) ↦ inl (at_end ∙ same) | inr sent ↦ inr (at_end ∙ sent) ]

  sweep_legs-requests :
      (treasury : Text) (i : ℕ) (legs : List FeeSweepLeg) (e : Engine S X)
      → (qs : List PayoutRequest) × ((sweep_legs store deps m p treasury i legs e).1.requests
          ≡ e.requests ++ qs)
        × AllSwept p (some treasury) qs
  unfolding sweep_legs ◌>>=◌
  sweep_legs-requests treasury i [] e = ([], sym (append-nil e.requests), tt)
  sweep_legs-requests treasury i (leg ∷ legs) e =
      let e' = (sweep_leg store deps m p treasury i leg e).1 in
      let (qs, rest, swept) = sweep_legs-requests treasury (suc i) legs e' in
      elim (sweep_leg-requests treasury i leg e) [
        | inl same ↦ (qs, rest ∙ ap (λ (rs : List PayoutRequest). rs ++ qs) same, swept)
        | inr sent ↦ (
          fee_request p treasury (fee_key p i) leg ∷ qs,
          rest
              ∙ (ap (λ (rs : List PayoutRequest). rs ++ qs) sent
                  ∙ append_assoc e.requests (fee_request p treasury (fee_key p i) leg ∷ []) qs),
          ((refl, refl, refl), swept),
        )
      ]

  sweep_planned-requests :
      (treasury : Text) (planned : Result FeeSweepPlan) (e : Engine S X)
      → (qs : List PayoutRequest) × ((sweep_planned store deps m p treasury planned e).1.requests
          ≡ e.requests ++ qs)
        × AllSwept p (some treasury) qs
  unfolding sweep_planned
  sweep_planned-requests treasury (err thrown) e = ([], sym (append-nil e.requests), tt)
  sweep_planned-requests treasury (ok plan) e = sweep_legs-requests treasury 0 plan.legs e

  sweep_to-requests :
      (legs : List GatheredLeg) (fee_sweep : FeeSweep S X) (treasury : Option Text) (e : Engine S X)
      → (qs : List PayoutRequest) × ((sweep_to store deps m p legs fee_sweep treasury e).1.requests
          ≡ e.requests ++ qs)
        × AllSwept p treasury qs
  unfolding sweep_to
  sweep_to-requests legs fee_sweep none e = ([], sym (append-nil e.requests), tt)
  sweep_to-requests legs fee_sweep (some treasury) e = elim (Bool-cases (is_empty treasury)) [
    | inl unset ↦ rw unset ([], sym (append-nil e.requests), tt)
    | inr set ↦ rw set (sweep_planned-requests treasury _ e)
  ]

  -- The sweep hands over requests that pay to the treasury of the chain, and no others.
  pub sweep_fee-requests :
      (legs : List GatheredLeg) (fee_sweep : Option (FeeSweep S X)) (e : Engine S X)
      → (qs : List PayoutRequest) × ((sweep_fee store deps m p legs fee_sweep e).1.requests
          ≡ e.requests ++ qs)
        × AllSwept p (treasury_of fee_sweep p.chain) qs
  unfolding sweep_fee
  sweep_fee-requests legs none e = ([], sym (append-nil e.requests), tt)
  sweep_fee-requests legs (some fee_sweep) e =
      sweep_to-requests legs fee_sweep (fee_sweep.treasury_address_for p.chain) e

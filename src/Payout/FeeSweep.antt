-- ===== src/Payout/FeeSweep.antt =====
-- `sweepFee` of `PayoutService`.
use cixtech.Ledger.Types.{FeeSweptInput}
use cixtech.Prelude.{
  ℕ, suc, ℤ, pos, ◌+ℤ◌, Text, codes, if◌then◌else◌, get_or, ◌++◌, Bool, List, [], ◌∷◌, none, some,
  Option,
}
use cixtech.Prelude.Decimal.{nat_text}
use cixtech.Prelude.Dict.{Dict, lookup, insert}
use cixtech.Errors.{ok, err, Result}
use cixtech.Ledger.Store.{LedgerStore}
use cixtech.Policy.Approvals.{is_empty}
use cixtech.Pool.Types.{GatheredLeg}
use cixtech.Sweep.{FeeSweepLeg, FeeSweepPlan}
use cixtech.Payout.Types.{PayoutRequest}
use cixtech.Effect.{Effect, ◌>>◌, done, swallow}
use cixtech.Payout.World.{
  PayoutParams, Moment, Engine, Deps, pool_key, PrepareGatherInput, FeeSweep,
}
use cixtech.Payout.Postings.{post_swept}
use cixtech.Payout.Calls.{on_ledger, send, prepare}

-- What the merchant's own legs take from each address.
unfoldable pub reserved_by : List GatheredLeg → Dict ℤ → Dict ℤ
reserved_by [] reserved = reserved
reserved_by (leg ∷ legs) reserved = reserved_by legs (
    insert leg.source.address
      (get_or (lookup leg.source.address reserved) (pos 0) +ℤ leg.amount_base_units) reserved)

abbrev pub fee_request : PayoutParams → Text → Text → FeeSweepLeg → PayoutRequest
fee_request p treasury_address key leg = record {
  chain = p.chain;
  asset = p.asset;
  amount_base_units = leg.amount_base_units;
  from_address = leg.source.address;
  from_derivation_index = leg.source.derivation_index;
  to_address = treasury_address;
  idempotency_key = some key;
  authorization = none;
}

abbrev pub fee_key : PayoutParams → ℕ → Text
fee_key p i = p.idempotency_key ++ (codes ":fee:" ++ nat_text i)

abbrev pub fee_preparation : PayoutParams → Text → FeeSweepLeg → PrepareGatherInput
fee_preparation p key leg = record {
  chain = p.chain;
  address = leg.source.address;
  derivation_index = leg.source.derivation_index;
  asset = p.asset;
  amount_base_units = leg.amount_base_units;
  idempotency_key = key;
}

abbrev pub fee_input : PayoutParams → Text → FeeSweepLeg → FeeSweptInput
fee_input p key leg = record {
  id = key;
  idempotency_key = key;
  asset = p.asset;
  amount = leg.amount_base_units;
  pool_addr = pool_key p;
  treasury = codes "treasury:" ++ p.chain;
  network_fee = none;
  occurred_at = none;
}

module _ {S X : Type 0} {IsSound : S → Type 0} (store : LedgerStore S IsSound)
    (deps : Deps S X) where
  unfoldable pub sweep_leg :
      Moment → PayoutParams → Text → ℕ → FeeSweepLeg → Effect (Engine S X) Bool
  unfolding prepare send post_swept
  sweep_leg m p treasury_address i leg =
      prepare deps leg.source.gather_strategy (fee_preparation p (fee_key p i) leg)
      >> send deps (fee_request p treasury_address (fee_key p i) leg)
      >> on_ledger (post_swept store (m.swept i) (fee_input p (fee_key p i) leg))

  -- Each leg is on its own: the loop drops what one throws and goes on to the next.
  unfoldable pub sweep_legs :
      Moment → PayoutParams → Text → ℕ → List FeeSweepLeg → Effect (Engine S X) (Unit {0})
  unfolding sweep_leg
  sweep_legs m p treasury_address i [] = done tt
  sweep_legs m p treasury_address i (leg ∷ legs) =
      let rest = sweep_legs m p treasury_address (suc i) legs in
      swallow (sweep_leg m p treasury_address i leg) >> rest

  -- `try { plan = … } catch { return; }`, and the legs of the plan.
  unfoldable pub sweep_planned :
      Moment → PayoutParams → Text → Result FeeSweepPlan → Effect (Engine S X) (Unit {0})
  sweep_planned m p treasury_address (err thrown) = done tt
  sweep_planned m p treasury_address (ok plan) = sweep_legs m p treasury_address 0 plan.legs

  unfoldable pub sweep_to :
      Moment
      → PayoutParams
      → List GatheredLeg
      → FeeSweep S X
      → Option Text
      → Effect (Engine S X) (Unit {0})
  sweep_to m p legs fee_sweep none e = (ok tt, e)
  sweep_to m p legs fee_sweep (some treasury_address) e =
      if is_empty treasury_address
      then (ok tt, e)
      else sweep_planned m p treasury_address
          (fee_sweep.plan p.tenant p.merchant p.chain p.asset (reserved_by legs []) e.ledger
            e.outside)
          e

  unfoldable pub sweep_fee :
      Moment
      → PayoutParams
      → List GatheredLeg
      → Option (FeeSweep S X)
      → Effect (Engine S X) (Unit {0})
  sweep_fee m p legs none = done tt
  sweep_fee m p legs (some fee_sweep) =
      sweep_to m p legs fee_sweep (fee_sweep.treasury_address_for p.chain)

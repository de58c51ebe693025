-- ===== src/Payout/Service.antt =====
-- `payout` of `PayoutService`, backend/src/services/payout.service.ts.
pub mod Recorded
pub mod Replay
pub mod Released
pub mod Requests
pub mod Sweeps
pub mod Spends
pub mod Guarded
pub mod Authorized
use cixtech.Pool.Types.{GatheredLeg}
use cixtech.Prelude.{ℕ, Text, if◌then◌else◌, Option, none, some, List}
use cixtech.Errors.{err}
use cixtech.Ledger.Store.{LedgerStore}
use cixtech.Ledger.Service.{lock_payout}
use cixtech.Policy.Types.{PayoutContext}
use cixtech.Pool.Gather.{gather}
use cixtech.Pool.Lease.{lease_key, acquire, release}
use cixtech.Payout.Authorization.{Crypto}
use cixtech.Payout.Journal.{IntentRow, set_from, mark_broadcast, mark_settled}
use cixtech.Effect.{Effect, ◌>>=◌, ◌>>◌, done, finally}
use cixtech.Payout.World.{
  PayoutParams, PayoutResult, Moment, World, Deps, Standing, standing, gather_busy, lock_input,
  PayoutLeg,
}
use cixtech.Payout.Calls.{
  on_engine, on_ledger, reading, on_journal, begin_intent, check_policy, settle,
}
use cixtech.Payout.Legs.{leg_key, primary_from, primary_tx_id, listed_legs, send_legs}
use cixtech.Payout.FeeSweep.{sweep_fee}

abbrev pub context_of : PayoutParams → ℕ → PayoutContext
context_of p requested_at = record {
  tenant = p.tenant;
  merchant = p.merchant;
  chain = p.chain;
  asset = p.asset;
  amount_base_units = p.amount_base_units;
  destination = p.destination;
  requester = p.requester;
  approvals = p.approvals;
  requested_at = some requested_at;
}

-- `intent?.createdAt ?? now`
abbrev pub requested_at : Moment → Option IntentRow → ℕ
requested_at m none = m.now
requested_at m (some intent) = intent.created_at

abbrev pub lease_of : PayoutParams → Text
lease_of p = lease_key p.tenant p.merchant p.chain

module _ {S X : Type 0} {IsSound : S → Type 0} (store : LedgerStore S IsSound) (c : Crypto)
    (deps : Deps S X) where
  -- `this.gatherer.gather(…)`
  unfoldable pub gather_legs : PayoutParams → Effect (World S X) (List GatheredLeg)
  gather_legs p = on_engine (
      reading λ e.
        gather (deps.balance e.outside) p.chain p.asset p.amount_base_units
          (deps.addresses p.tenant p.merchant p.chain e.outside))

  -- From the sender's address to the last leg that is sent.
  unfoldable pub dispatch :
      Moment → PayoutParams → List GatheredLeg → Effect (World S X) (List PayoutLeg)
  dispatch m p legs =
      on_journal deps (set_from p.idempotency_key (primary_from legs) m.gathered)
      >> on_engine (on_ledger (lock_payout store m.locked (lock_input p)))
      >> on_engine (send_legs c deps m p (leg_key p.idempotency_key legs) 0 legs)

  -- What follows once all legs are sent.
  unfoldable pub complete :
      Moment → PayoutParams → List GatheredLeg → List PayoutLeg → Effect (World S X) PayoutResult
  complete m p legs sent =
      on_journal deps (mark_broadcast p.idempotency_key (primary_tx_id sent) m.sent)
      >> on_engine (settle store m.posted p)
      >> on_journal deps (mark_settled p.idempotency_key m.settled)
      >> on_engine (sweep_fee store deps m p legs deps.fee_sweep)
      >> done
          (record { tx_id = primary_tx_id sent; from = primary_from legs; legs = listed_legs sent })

  -- The part of `payout` that holds the lease.
  unfoldable pub spend_legs :
      Moment → PayoutParams → List GatheredLeg → Effect (World S X) PayoutResult
  spend_legs m p legs = dispatch m p legs >>= complete m p legs

  unfoldable pub spend : Moment → PayoutParams → Effect (World S X) PayoutResult
  spend m p = gather_legs p >>= spend_legs m p

  -- `spend` under the gather lease, where there is one, which is given back whatever comes of it.
  unfoldable pub spend_leased : Option ℕ → Moment → PayoutParams → Effect (World S X) PayoutResult
  spend_leased none m p w = spend m p w
  spend_leased (some ttl_ms) m p w =
      let got = acquire ttl_ms (lease_of p) p.idempotency_key m.leased w.leases in
      let held = record w { leases = got.1 } in
      let spent =
        finally (spend m p)
          (λ v. record v { leases = release (lease_of p) p.idempotency_key v.leases }) held in
      if got.0 then spent else (err gather_busy, held)

  -- What follows once the intent is begun, by where it stands.
  unfoldable pub resume : Moment → PayoutParams → ℕ → Standing → Effect (World S X) PayoutResult
  resume m p requested (Standing.is_settled tx_id from) =
      done (record { tx_id = tx_id; from = from; legs = none })
  resume m p requested (Standing.is_broadcast tx_id from) =
      on_engine (settle store m.posted p)
      >> on_journal deps (mark_settled p.idempotency_key m.settled)
      >> done (record { tx_id = tx_id; from = from; legs = none })
  resume m p requested Standing.is_open =
      on_engine (check_policy deps (context_of p requested) m.now)
      >> spend_leased deps.gather_lease m p

  unfoldable pub payout : Moment → PayoutParams → Effect (World S X) PayoutResult
  payout m p =
      begin_intent deps m p >>= λ intent. resume m p (requested_at m intent) (standing intent)

-- ===== src/Payout/Approve.antt =====
-- `approve` of `PayoutService`, backend/src/services/payout.service.ts: it records an approval and
-- calls `payout` again with all of them.
use cixtech.Prelude.{ℕ, Text, if◌then◌else◌, List, [], get_or, ◌&&◌, not, none, some}
use cixtech.Errors.{Result, ok, err, Error, ErrorCode}
use cixtech.Ledger.Store.{LedgerStore}
use cixtech.Policy.Approvals.{approve, approvers_for}
use cixtech.Payout.Types.{PayoutIntentStatus}
use cixtech.Payout.Authorization.{Crypto}
use cixtech.Payout.Journal.{IntentRow, load_by_id}
use cixtech.Effect.{Effect, attempt}
use cixtech.Payout.World.{PayoutParams, PayoutResult, Moment, World, Deps, filled}
use cixtech.Payout.Service.{payout}

pub record ApproveWithdrawal : Type 0 where
  pub tenant : Text
  pub withdrawal_id : Text
  pub approver : Text

pub data ApproveResult : Type 0 where
  settled : (tx_id from : Text) → List Text → ApproveResult
  pending : ℕ → List Text → ApproveResult

abbrev pub withdrawal_not_found : Error
withdrawal_not_found = Error.app ErrorCode.withdrawal_not_found

-- The parameters of the payout are those that the intent was begun with.
abbrev pub params_of : IntentRow → List Text → PayoutParams
params_of r approvals = record {
  tenant = r.tenant;
  merchant = r.merchant;
  chain = r.chain;
  asset = r.asset;
  amount_base_units = r.amount_base_units;
  destination = r.destination;
  idempotency_key = r.idempotency_key;
  requester = filled r.requested_by;
  approvals = some approvals;
}

-- `catch (err) { if (err instanceof ApprovalRequiredError) … throw err; }`
abbrev pub answer : ℕ → List Text → Result PayoutResult → Result ApproveResult
answer needed approvals (ok r) = ok (ApproveResult.settled r.tx_id r.from approvals)
answer needed approvals (err (Error.app ErrorCode.policy_approval_required)) =
    ok (ApproveResult.pending needed approvals)
answer needed approvals (err e) = err e

module _ {S X : Type 0} {IsSound : S → Type 0} (store : LedgerStore S IsSound) (c : Crypto)
    (deps : Deps S X) where
  -- What follows once the intent is found and not settled.
  unfoldable pub approve_intent :
      Moment → ApproveWithdrawal → IntentRow → Effect (World S X) ApproveResult
  unfolding approve approvers_for payout
  approve_intent m i r w =
      let recorded = attempt w.approvals (
        approve
          (record {
            tenant = i.tenant;
            intent_key = r.idempotency_key;
            approver = i.approver;
            requested_by = r.requested_by;
          })
          w.approvals) in
      let w' = record w { approvals = recorded.1 } in
      let approvals = approvers_for r.idempotency_key recorded.1 in
      let paid = payout store c deps m (params_of r approvals) w' in
      elim recorded.0 [
        | err thrown ↦ (err thrown, w')
        | ok _ ↦ (answer (get_or deps.approvals_required 0) approvals paid.0, paid.1)
      ]

  unfoldable pub approve_payout : Moment → ApproveWithdrawal → Effect (World S X) ApproveResult
  unfolding load_by_id approve_intent approvers_for
  approve_payout m i w =
      if not (deps.journal && deps.approval_store)
      then (err Error.plain, w)
      else elim (load_by_id i.tenant i.withdrawal_id w.intents) [
        | none ↦ (err withdrawal_not_found, w)
        | some r ↦ elim r.status [
          | PayoutIntentStatus.settled ↦ (
            ok (
                ApproveResult.settled (get_or r.tx_id []) (get_or r.from_address [])
                  (approvers_for r.idempotency_key w.approvals)),
            w,
          )
          | _ ↦ approve_intent m i r w
        ]
      ]

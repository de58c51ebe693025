-- ===== src/Policy/Engine.antt =====
-- `PolicyEngine` of backend/src/chains/payout/policy.ts, over the state that its collaborators
-- keep. The kill switch, the screener, the solvency oracle, the allow-list and the velocity
-- limiter are the interfaces of the same file; only the limiter changes the state.
pub mod Quorum
pub mod Conditions
pub mod Permitted
pub mod Refused
use cixtech.Prelude.{
  ℕ, ℤ, pos, leb_ℤ, ltb_ℤ, ltb, leb, ◌+◌, Text, same, includes, if◌then◌else◌, get_or, ◌&&◌, ◌||◌,
  not, Bool, true, false, List, [], ◌∷◌, Option, none, some, suc,
}
use cixtech.Errors.{Result, ok, err, Error, ErrorCode, ◌>>=◌}
use cixtech.Policy.Types.{PayoutContext, DenyReason, PolicyDecision, ApprovalPolicy, TimeLockPolicy}

pub record PolicyConfig (S : Type 0) : Type 0 where
  pub max_per_payout_base_units : ℤ
  pub allowlist : List Text
  pub allowlist_store : Option (PayoutContext → ℕ → S → Bool)
  pub kill_switch : Option (PayoutContext → S → Bool)
  pub sanctions : Option (Text → S → Bool)
  pub solvency : Option (Text → S → Result Bool)
  pub approval : Option ApprovalPolicy
  pub time_lock : Option TimeLockPolicy
  pub velocity : Option (PayoutContext → ℕ → S → Result S)

-- `a && a !== ctx.requester`
abbrev pub counts : Option Text → Text → Bool
counts requester [] = false
counts none (c ∷ a) = true
counts (some r) (c ∷ a) = not (same (c ∷ a) r)

-- `new Set(approvals.filter(…))`, as the list of its members.
unfoldable pub approvers : Option Text → List Text → List Text
approvers requester [] = []
approvers requester (a ∷ rest) =
    let others = approvers requester rest in
    if counts requester a && not (includes others a) then a ∷ others else others

abbrev pub size : List Text → ℕ
size [] = 0
size (_ ∷ xs) = suc (size xs)

abbrev pub approvals_have : PayoutContext → ℕ
approvals_have ctx = size (approvers ctx.requester (get_or ctx.approvals []))

-- The stages of `evaluate`; `none` lets the payout go on to the next one.
abbrev pub amount_stage : {S : Type 0} → PolicyConfig S → PayoutContext → Option PolicyDecision
amount_stage cfg ctx =
    if leb_ℤ ctx.amount_base_units (pos 0)
    then some (PolicyDecision.deny DenyReason.not_positive)
    else if ltb_ℤ cfg.max_per_payout_base_units ctx.amount_base_units
    then some (PolicyDecision.deny DenyReason.over_limit)
    else none

abbrev pub halted : {S : Type 0} → PolicyConfig S → PayoutContext → S → Bool
halted cfg ctx s = elim cfg.kill_switch [ none ↦ false | some engaged ↦ engaged ctx s ]

abbrev pub store_allowed : {S : Type 0} → PolicyConfig S → PayoutContext → ℕ → S → Bool
store_allowed cfg ctx now s = elim cfg.allowlist_store [
  | none ↦ false
  | some usable ↦ usable ctx now s
]

abbrev pub allowed : {S : Type 0} → PolicyConfig S → PayoutContext → ℕ → S → Bool
allowed cfg ctx now s = includes cfg.allowlist ctx.destination || store_allowed cfg ctx now s

abbrev pub blocked : {S : Type 0} → PolicyConfig S → PayoutContext → S → Bool
blocked cfg ctx s = elim cfg.sanctions [
  | none ↦ false
  | some is_blocked ↦ is_blocked ctx.destination s
]

abbrev pub solvent : {S : Type 0} → PolicyConfig S → PayoutContext → S → Result Bool
solvent cfg ctx s = elim cfg.solvency [ none ↦ ok true | some oracle ↦ oracle ctx.asset s ]

abbrev pub approval_of : PayoutContext → Option ApprovalPolicy → Option PolicyDecision
approval_of ctx none = none
approval_of ctx (some p) =
    if ltb_ℤ p.threshold_base_units ctx.amount_base_units && ltb (approvals_have ctx) p.required
    then some (PolicyDecision.require_approval p.required (approvals_have ctx))
    else none

abbrev pub time_lock_of : PayoutContext → ℕ → Option TimeLockPolicy → Option PolicyDecision
time_lock_of ctx now none = none
time_lock_of ctx now (some p) =
    let until = get_or ctx.requested_at now + p.delay_ms in
    if ltb_ℤ p.threshold_base_units ctx.amount_base_units && ltb now until
    then some (PolicyDecision.delay until)
    else none

-- `catch (err) { if (err instanceof PolicyDeniedError) … throw err; }`
abbrev pub caught : {S : Type 0} → S → Result S → Result (PolicyDecision × S)
caught s (ok s') = ok (PolicyDecision.allow, s')
caught s (err (Error.app ErrorCode.policy_denied)) =
    ok (PolicyDecision.deny DenyReason.over_velocity, s)
caught s (err e) = err e

abbrev pub admitted : {S : Type 0} → PolicyConfig S → PayoutContext → ℕ → S → Result S
admitted cfg ctx now s = elim cfg.velocity [ none ↦ ok s | some admit ↦ admit ctx now s ]

unfoldable pub evaluate :
    {S : Type 0} → PolicyConfig S → PayoutContext → ℕ → S → Result (PolicyDecision × S)
evaluate cfg ctx now s =
    if halted cfg ctx s
    then ok (PolicyDecision.deny DenyReason.halted, s)
    else elim (amount_stage cfg ctx) [
      | some d ↦ ok (d, s)
      | none ↦
          if not (allowed cfg ctx now s)
          then ok (PolicyDecision.deny DenyReason.not_allowlisted, s)
          else if blocked cfg ctx s
          then ok (PolicyDecision.hold, s)
          else solvent cfg ctx s >>= λ is_solvent.
              if not is_solvent
              then ok (PolicyDecision.deny DenyReason.insolvent, s)
              else elim (approval_of ctx cfg.approval) [
                | some d ↦ ok (d, s)
                | none ↦ elim (time_lock_of ctx now cfg.time_lock) [
                  | some d ↦ ok (d, s)
                  | none ↦ caught s (admitted cfg ctx now s)
                ]
              ]
    ]

-- The errors that `check` throws for a decision.
abbrev pub thrown : {S : Type 0} → S → PolicyDecision → Result S
thrown s PolicyDecision.allow = ok s
thrown s (PolicyDecision.require_approval _ _) = err (Error.app ErrorCode.policy_approval_required)
thrown s PolicyDecision.hold = err (Error.app ErrorCode.policy_compliance_hold)
thrown s (PolicyDecision.delay _) = err (Error.app ErrorCode.policy_time_locked)
thrown s (PolicyDecision.deny _) = err (Error.app ErrorCode.policy_denied)

unfoldable pub check : {S : Type 0} → PolicyConfig S → PayoutContext → ℕ → S → Result S
unfolding evaluate
check cfg ctx now s = do (d, s') ← evaluate cfg ctx now s; thrown s' d

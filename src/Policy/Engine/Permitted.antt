-- ===== src/Policy/Engine/Permitted.antt =====
-- The policy as one condition: what must hold for a payout to be let through.
use cixtech.Prelude.{
  ◌∙◌, ℕ, if◌then◌else◌, not, Bool, true, false, Option, none, some, ◌≡◌, ◌≢◌, ◌↔◌, refl, arith, ap,
}
use cixtech.Errors.{Result, ok, >>=-eq-ok}
use cixtech.Policy.Types.{PayoutContext, PolicyDecision, ApprovalPolicy, TimeLockPolicy}
use cixtech.Policy.Engine.{
  PolicyConfig, amount_stage, halted, allowed, blocked, solvent, approval_of, time_lock_of,
  admitted, evaluate, thrown, check,
}
use cixtech.Policy.Engine.Conditions.{
  IsPermitted, amount_stage-none, none-amount_stage, halted-false, blocked-false, solvent-ok,
  admitted-ok, allowed-true, approval_of-none, time_lock_of-none, caught-allow,
}

-- A stage that stops a payout does not allow it.
abbrev Stops : Option PolicyDecision → Type 0
Stops o = o ≢ some PolicyDecision.allow

approval_of-Stops : (ctx : PayoutContext) (o : Option ApprovalPolicy) → Stops (approval_of ctx o)
approval_of-Stops ctx none e = cc
approval_of-Stops ctx (some p) e = ground arith

time_lock_of-Stops :
    (ctx : PayoutContext) (now : ℕ) (o : Option TimeLockPolicy) → Stops (time_lock_of ctx now o)
time_lock_of-Stops ctx now none e = cc
time_lock_of-Stops ctx now (some p) e = ground arith

-- A stage lets the payout go on, or its decision ends the evaluation.
stage-allow :
    {S : Type 0} (s s' : S) (o : Option PolicyDecision) (rest : Result (PolicyDecision × S))
    → Stops o
    → elim o [ some d ↦ ok (d, s) | none ↦ rest ] ≡ ok (PolicyDecision.allow, s')
    → (o ≡ none) × (rest ≡ ok (PolicyDecision.allow, s'))
stage-allow s s' none rest n h = (refl, h)
stage-allow s s' (some d) rest n h = absurd (n (ground arith))

-- So does a guard.
guard-allow :
    {S : Type 0} (s s' : S) (b : Bool) (d : PolicyDecision) (rest : Result (PolicyDecision × S))
    → d ≢ PolicyDecision.allow
    → (if b then ok (d, s) else rest) ≡ ok (PolicyDecision.allow, s')
    → (b ≡ false) × (rest ≡ ok (PolicyDecision.allow, s'))
guard-allow s s' true d rest n h = absurd (n (ground arith))
guard-allow s s' false d rest n h = (refl, h)

amount_stage-Stops :
    {S : Type 0} (cfg : PolicyConfig S) (ctx : PayoutContext) → Stops (amount_stage cfg ctx)
amount_stage-Stops cfg ctx e = ground arith

not-false : (b : Bool) → not b ≡ false → b ≡ true
not-false true h = refl
not-false false h = absurd (cc)

allowed-IsPermitted :
    {S : Type 0} (cfg : PolicyConfig S) (ctx : PayoutContext) (now : ℕ) (s s' : S)
    → evaluate cfg ctx now s ≡ ok (PolicyDecision.allow, s')
    → IsPermitted cfg ctx now s s'
unfolding evaluate
allowed-IsPermitted cfg ctx now s s' h =
    let (running, h1) = guard-allow s s' (halted cfg ctx s) _ _ (λ e. cc) h in
    let (amount, h2) = stage-allow s s' (amount_stage cfg ctx) _ (amount_stage-Stops cfg ctx) h1 in
    let (listed, h3) = guard-allow s s' (not (allowed cfg ctx now s)) _ _ (λ e. cc) h2 in
    let (unblocked, h4) = guard-allow s s' (blocked cfg ctx s) _ _ (λ e. cc) h3 in
    let (b, sol, h5) = >>=-eq-ok (solvent cfg ctx s) _ h4 in
    let (covered, h6) = guard-allow s s' (not b) _ _ (λ e. cc) h5 in
    let (approval, h7) =
      stage-allow s s' (approval_of ctx cfg.approval) _ (approval_of-Stops ctx cfg.approval) h6 in
    let (lock, h8) =
      stage-allow s s' (time_lock_of ctx now cfg.time_lock) _
        (time_lock_of-Stops ctx now cfg.time_lock) h7 in
    let (positive, within) = amount_stage-none cfg ctx amount in
    record {
      running = (halted-false ctx s cfg.kill_switch).0 running;
      positive = positive;
      within_limit = within;
      listed = (allowed-true ctx now s cfg.allowlist cfg.allowlist_store).0 (not-false _ listed);
      unblocked = (blocked-false ctx s cfg.sanctions).0 unblocked;
      covered = (solvent-ok ctx s cfg.solvency).0 (sol ∙ ap ok (not-false _ covered));
      approved = (approval_of-none ctx cfg.approval).0 approval;
      waited = (time_lock_of-none ctx now cfg.time_lock).0 lock;
      within_velocity =
          (admitted-ok ctx now s s' cfg.velocity).0
            ((caught-allow s s' (admitted cfg ctx now s)).0 h8);
    }

permitted-allow :
    {S : Type 0} (cfg : PolicyConfig S) (ctx : PayoutContext) (now : ℕ) (s s' : S)
    → IsPermitted cfg ctx now s s'
    → evaluate cfg ctx now s ≡ ok (PolicyDecision.allow, s')
unfolding evaluate
permitted-allow cfg ctx now s s' p = rw (
  (halted-false ctx s cfg.kill_switch).1 p.running,
  none-amount_stage cfg ctx p.positive p.within_limit,
  (allowed-true ctx now s cfg.allowlist cfg.allowlist_store).1 p.listed,
  (blocked-false ctx s cfg.sanctions).1 p.unblocked,
  (solvent-ok ctx s cfg.solvency).1 p.covered,
  (approval_of-none ctx cfg.approval).1 p.approved,
  (time_lock_of-none ctx now cfg.time_lock).1 p.waited,
  (admitted-ok ctx now s s' cfg.velocity).1 p.within_velocity,
)

thrown-ok :
    {S : Type 0} (t s' : S) (d : PolicyDecision)
    → thrown t d ≡ ok s'
    → (d ≡ PolicyDecision.allow) × (t ≡ s')
thrown-ok t s' d h = (ground arith, ground arith)

-- `check` lets a payout through exactly when no kill switch halts it, the amount is positive and
-- within the limit, the destination is listed and not blocked, the asset is solvent, an amount over
-- the thresholds has as many different approvers as required, none of them empty or the requester,
-- and has waited its delay, and the velocity limiter, where there is one, admits it; the state is
-- then what the limiter leaves.
pub check-ok_iff :
    {S : Type 0} (cfg : PolicyConfig S) (ctx : PayoutContext) (now : ℕ) (s s' : S)
    → (check cfg ctx now s ≡ ok s') ↔ IsPermitted cfg ctx now s s'
unfolding check
check-ok_iff cfg ctx now s s' = (λ h. returned h, λ p. permitted p)
  where
    returned : check cfg ctx now s ≡ ok s' → IsPermitted cfg ctx now s s'
    returned h =
        let ((d, t), e, q) = >>=-eq-ok (evaluate cfg ctx now s) (λ r. thrown r.1 r.0) h in
        let (allow, left) = thrown-ok t s' d q in
        allowed-IsPermitted cfg ctx now s s' (rw (← allow, ← left) e)

    permitted : IsPermitted cfg ctx now s s' → check cfg ctx now s ≡ ok s'
    permitted p = rw (permitted-allow cfg ctx now s s' p)

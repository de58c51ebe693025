-- ===== src/Policy/Engine/Refused.antt =====
-- What a decision other than `allow` does to the state: nothing.
use cixtech.Prelude.{ℕ, if◌then◌else◌, not, Bool, true, false, Option, none, some, ◌≡◌, ◌≢◌, arith}
use cixtech.Errors.{Result, ok, err, Error, ◌>>=◌}
use cixtech.Policy.Types.{PayoutContext, PolicyDecision}
use cixtech.Policy.Engine.{
  PolicyConfig, amount_stage, halted, allowed, blocked, solvent, approval_of, time_lock_of, caught,
  admitted, evaluate,
}

-- A result whose state is the given one unless it allows.
abbrev Kept : {S : Type 0} → S → Result (PolicyDecision × S) → Type 0
Kept {S = S} s r =
    (d : PolicyDecision) (s' : S) → r ≡ ok (d, s') → d ≢ PolicyDecision.allow → s' ≡ s

ok-Kept : {S : Type 0} (s : S) (d : PolicyDecision) → Kept s (ok (d, s))
ok-Kept s d d' s' h n = ground arith

guard-Kept :
    {S : Type 0} (s : S) (b : Bool) (d : PolicyDecision) (rest : Result (PolicyDecision × S))
    → Kept s rest
    → Kept s (if b then ok (d, s) else rest)
guard-Kept s true d rest k = ok-Kept s d
guard-Kept s false d rest k = k

stage-Kept :
    {S : Type 0} (s : S) (o : Option PolicyDecision) (rest : Result (PolicyDecision × S))
    → Kept s rest
    → Kept s (elim o [ some d ↦ ok (d, s) | none ↦ rest ])
stage-Kept s none rest k = k
stage-Kept s (some d) rest k = ok-Kept s d

bind-Kept :
    {S : Type 0} (s : S) (m : Result Bool) (f : Bool → Result (PolicyDecision × S))
    → ((b : Bool) → Kept s (f b))
    → Kept s (m >>= f)
bind-Kept s (ok b) f k = k b
bind-Kept s (err e) f k = λ d s' h n. cc

caught-Kept : {S : Type 0} (s : S) (r : Result S) → Kept s (caught s r)
caught-Kept s (ok t) d s' h n = ground arith
caught-Kept s (err (Error.app c)) d s' h n = ground arith
caught-Kept s (err Error.plain) d s' h n = cc
caught-Kept s (err Error.constraint) d s' h n = cc

-- Any decision but `allow` leaves the state as it was: a payout that is refused, held or put off
-- uses up none of the velocity window.
pub evaluate_refused :
    {S : Type 0} (cfg : PolicyConfig S) (ctx : PayoutContext) (now : ℕ) (s s' : S)
    (d : PolicyDecision)
    → evaluate cfg ctx now s ≡ ok (d, s')
    → d ≢ PolicyDecision.allow
    → s' ≡ s
unfolding evaluate
evaluate_refused cfg ctx now s s' d h n =
    guard-Kept s (halted cfg ctx s) _ _
      (stage-Kept s (amount_stage cfg ctx) _ (
        guard-Kept s (not (allowed cfg ctx now s)) _ _ (
          guard-Kept s (blocked cfg ctx s) _ _ (
            bind-Kept s (solvent cfg ctx s) _ (λ b. guard-Kept s (not b) _ _ (
              stage-Kept s (approval_of ctx cfg.approval) _ (
                stage-Kept s (time_lock_of ctx now cfg.time_lock) _
                  (caught-Kept s (admitted cfg ctx now s)))))))))
      d s' h n

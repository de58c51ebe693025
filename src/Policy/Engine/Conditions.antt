-- ===== src/Policy/Engine/Conditions.antt =====
-- The conditions of a policy, each stated on its own, and the stages of the engine that test them.
use mathlib.Core.List.{Memᴰ}
use cixtech.Policy.Engine.Quorum.{HasQuorum, approvers-HasQuorum, Mem-includes, includes-Mem}
use cixtech.Prelude.{
  Text, List, [], ◌||◌, includes, inl, inr, ◌⊎◌, ℕ, pos, ◌<ℤ◌, ◌≤ℤ◌, ◌+◌, ◌≤◌, get_or, Bool, true,
  false, Option, none, some, ◌≡◌, ◌↔◌, refl, arith, ap,
}
use cixtech.Errors.{Result, ok, err, Error}
use cixtech.Policy.Types.{PayoutContext, PolicyDecision, ApprovalPolicy, TimeLockPolicy}
use cixtech.Policy.Engine.{
  PolicyConfig, approvals_have, amount_stage, approval_of, time_lock_of, caught,
}

-- An amount over the threshold has as many different approvers as the policy requires.
abbrev pub IsApproved : PayoutContext → Option ApprovalPolicy → Type 0
IsApproved ctx none = Unit {0}
IsApproved ctx (some p) =
    (ctx.amount_base_units ≤ℤ p.threshold_base_units)
    ⊎ HasQuorum ctx.requester (get_or ctx.approvals []) p.required

-- An amount over the threshold has waited the delay since it was requested.
abbrev pub HasWaited : PayoutContext → ℕ → Option TimeLockPolicy → Type 0
HasWaited ctx now none = Unit {0}
HasWaited ctx now (some p) =
    p.threshold_base_units <ℤ ctx.amount_base_units → get_or ctx.requested_at now + p.delay_ms ≤ now

-- No kill switch halts the payout.
abbrev pub IsRunning : {S : Type 0} → PayoutContext → S → Option (PayoutContext → S → Bool) → Type 0
IsRunning ctx s none = Unit {0}
IsRunning ctx s (some engaged) = engaged ctx s ≡ false

-- The destination is on the list or is usable by the store of the list.
abbrev pub IsListed :
    {S : Type 0}
    → PayoutContext
    → ℕ
    → S
    → List Text
    → Option (PayoutContext → ℕ → S → Bool)
    → Type 0
IsListed ctx now s listed none = Memᴰ ctx.destination listed
IsListed ctx now s listed (some usable) = Memᴰ ctx.destination listed ⊎ (usable ctx now s ≡ true)

-- No screening blocks the destination.
abbrev pub IsClear : {S : Type 0} → PayoutContext → S → Option (Text → S → Bool) → Type 0
IsClear ctx s none = Unit {0}
IsClear ctx s (some is_blocked) = is_blocked ctx.destination s ≡ false

-- No oracle says or fails to say that the asset is covered.
abbrev pub IsCovered : {S : Type 0} → PayoutContext → S → Option (Text → S → Result Bool) → Type 0
IsCovered ctx s none = Unit {0}
IsCovered ctx s (some oracle) = oracle ctx.asset s ≡ ok true

-- The limiter admits the payout and leaves the state, or there is none and the state is as it was.
abbrev pub IsWithinVelocity :
    {S : Type 0} → PayoutContext → ℕ → S → S → Option (PayoutContext → ℕ → S → Result S) → Type 0
IsWithinVelocity ctx now s s' none = s ≡ s'
IsWithinVelocity ctx now s s' (some admit) = admit ctx now s ≡ ok s'

pub record IsPermitted {S : Type 0} (cfg : PolicyConfig S) (ctx : PayoutContext) (now : ℕ)
    (s s' : S) : Type 0 where
  pub running : IsRunning ctx s cfg.kill_switch
  pub positive : pos 0 <ℤ ctx.amount_base_units
  pub within_limit : ctx.amount_base_units ≤ℤ cfg.max_per_payout_base_units
  pub listed : IsListed ctx now s cfg.allowlist cfg.allowlist_store
  pub unblocked : IsClear ctx s cfg.sanctions
  pub covered : IsCovered ctx s cfg.solvency
  pub approved : IsApproved ctx cfg.approval
  pub waited : HasWaited ctx now cfg.time_lock
  pub within_velocity : IsWithinVelocity ctx now s s' cfg.velocity

pub amount_stage-none :
    {S : Type 0} (cfg : PolicyConfig S) (ctx : PayoutContext)
    → amount_stage cfg ctx ≡ none
    → (pos 0 <ℤ ctx.amount_base_units) × (ctx.amount_base_units ≤ℤ cfg.max_per_payout_base_units)
amount_stage-none cfg ctx h = (ground arith, ground arith)

pub none-amount_stage :
    {S : Type 0} (cfg : PolicyConfig S) (ctx : PayoutContext)
    → pos 0 <ℤ ctx.amount_base_units
    → ctx.amount_base_units ≤ℤ cfg.max_per_payout_base_units
    → amount_stage cfg ctx ≡ none
none-amount_stage cfg ctx p q = ground arith

pub halted-false :
    {S : Type 0} (ctx : PayoutContext) (s : S) (kill : Option (PayoutContext → S → Bool))
    → (elim kill [ none ↦ false | some engaged ↦ engaged ctx s ] ≡ false) ↔ IsRunning ctx s kill
halted-false ctx s none = (λ _. tt, λ _. refl)
halted-false ctx s (some engaged) = (λ h. h, λ h. h)

pub blocked-false :
    {S : Type 0} (ctx : PayoutContext) (s : S) (screen : Option (Text → S → Bool))
    → (elim screen [ none ↦ false | some is_blocked ↦ is_blocked ctx.destination s ] ≡ false)
      ↔ IsClear ctx s screen
blocked-false ctx s none = (λ _. tt, λ _. refl)
blocked-false ctx s (some is_blocked) = (λ h. h, λ h. h)

pub solvent-ok :
    {S : Type 0} (ctx : PayoutContext) (s : S) (solvency : Option (Text → S → Result Bool))
    → (elim solvency [ none ↦ ok true | some oracle ↦ oracle ctx.asset s ] ≡ ok true)
      ↔ IsCovered ctx s solvency
solvent-ok ctx s none = (λ _. tt, λ _. refl)
solvent-ok ctx s (some oracle) = (λ h. h, λ h. h)

pub admitted-ok :
    {S : Type 0} (ctx : PayoutContext) (now : ℕ) (s s' : S)
    (velocity : Option (PayoutContext → ℕ → S → Result S))
    → (elim velocity [ none ↦ ok s | some admit ↦ admit ctx now s ] ≡ ok s')
      ↔ IsWithinVelocity ctx now s s' velocity
admitted-ok ctx now s s' none = (λ h. cc, λ h. ap ok h)
admitted-ok ctx now s s' (some admit) = (λ h. h, λ h. h)

pub or-true : (a b : Bool) → (a || b) ≡ true → (a ≡ true) ⊎ (b ≡ true)
or-true true b h = inl refl
or-true false b h = inr h

pub true-or : (a b : Bool) → b ≡ true → (a || b) ≡ true
true-or true b h = refl
true-or false b h = h

pub allowed-true :
    {S : Type 0} (ctx : PayoutContext) (now : ℕ) (s : S) (listed : List Text)
    (store : Option (PayoutContext → ℕ → S → Bool))
    → ((includes listed ctx.destination
          || (elim store [ none ↦ false | some usable ↦ usable ctx now s ]))
        ≡ true)
      ↔ IsListed ctx now s listed store
allowed-true ctx now s listed none = (
  λ h. elim (or-true (includes listed ctx.destination) false h) [
    | inl known ↦ Mem-includes listed ctx.destination known
    | inr no_store ↦ absurd (cc)
  ],
  λ m. rw (includes-Mem listed ctx.destination m) refl,
)
allowed-true ctx now s listed (some usable) = (
  λ h. elim (or-true (includes listed ctx.destination) (usable ctx now s) h) [
    | inl known ↦ inl (Mem-includes listed ctx.destination known)
    | inr kept ↦ inr kept
  ],
  λ h. elim h [
    | inl m ↦ rw (includes-Mem listed ctx.destination m) refl
    | inr kept ↦ true-or (includes listed ctx.destination) (usable ctx now s) kept
  ],
)

pub approval_of-enough :
    (ctx : PayoutContext) (p : ApprovalPolicy)
    → (approval_of ctx (some p) ≡ none)
      ↔ ((ctx.amount_base_units ≤ℤ p.threshold_base_units) ⊎ (p.required ≤ approvals_have ctx))
approval_of-enough ctx p = (λ h. ground arith, λ h. ground arith)

pub approval_of-none :
    (ctx : PayoutContext) (o : Option ApprovalPolicy)
    → (approval_of ctx o ≡ none) ↔ IsApproved ctx o
approval_of-none ctx none = (λ _. tt, λ _. refl)
approval_of-none ctx (some p) =
    let quorum = approvers-HasQuorum ctx.requester (get_or ctx.approvals []) p.required in
    (
      λ h. elim ((approval_of-enough ctx p).0 h) [
        | inl low ↦ inl low
        | inr enough ↦ inr (quorum.0 enough)
      ],
      λ h.
          (approval_of-enough ctx p).1
            (elim h [ inl low ↦ inl low | inr has ↦ inr (quorum.1 has) ]),
    )

pub time_lock_of-none :
    (ctx : PayoutContext) (now : ℕ) (o : Option TimeLockPolicy)
    → (time_lock_of ctx now o ≡ none) ↔ HasWaited ctx now o
time_lock_of-none ctx now none = (λ _. tt, λ _. refl)
time_lock_of-none ctx now (some p) = (λ h. ground arith, λ h. ground arith)

pub caught-allow :
    {S : Type 0} (s s' : S) (r : Result S)
    → (caught s r ≡ ok (PolicyDecision.allow, s')) ↔ (r ≡ ok s')
caught-allow s s' (ok t) = (λ h. ground arith, λ h. ground arith)
caught-allow s s' (err (Error.app c)) = (λ h. ground arith, λ h. ground arith)
caught-allow s s' (err Error.plain) = (λ h. ground arith, λ h. ground arith)
caught-allow s s' (err Error.constraint) = (λ h. ground arith, λ h. ground arith)

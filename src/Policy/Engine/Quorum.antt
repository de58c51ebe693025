-- ===== src/Policy/Engine/Quorum.antt =====
-- The approvals that count, as a set: a quorum is a list of different approvers.
use mathlib.Core.List.{Memᴰ}
use mathlib.Core.List.Memᴰ
use cixtech.Prelude.{
  same-true, same_refl, ℕ, suc, ◌≤◌, Text, same, includes, true, false, Bool-cases, not, ◌&&◌, List,
  [], ◌∷◌, Option, none, some, inl, inr, ◌≡◌, ◌≢◌, ◌↔◌, refl, sym, ◌∙◌, ap, arith,
}
use cixtech.Policy.Engine.{counts, approvers, size}

-- Somebody named among the given who is not the requester.
abbrev pub IsApprover : Option Text → List Text → Text → Type 0
IsApprover requester given a = Memᴰ a given × (a ≢ []) × (requester ≢ some a)

abbrev pub AllApprovers : Option Text → List Text → List Text → Type 0
AllApprovers requester given [] = Unit {0}
AllApprovers requester given (a ∷ names) =
    IsApprover requester given a × AllApprovers requester given names

abbrev pub Different : List Text → Type 0
Different [] = Unit {0}
Different (a ∷ names) = (Memᴰ a names → ⊥) × Different names

-- At least so many different approvers are among the given.
abbrev pub HasQuorum : Option Text → List Text → ℕ → Type 0
HasQuorum requester given required =
    (names : List Text) × Different names
    × AllApprovers requester given names
    × (required ≤ size names)

not-same : (a b : Text) → a ≢ b → same a b ≡ false
not-same a b n = elim (Bool-cases (same a b)) [ inl e ↦ absurd (n (same-true a b e)) | inr f ↦ f ]

pub Mem-includes : (xs : List Text) (a : Text) → includes xs a ≡ true → Memᴰ a xs
Mem-includes [] a h = absurd (cc)
Mem-includes (x ∷ xs) a h = elim (Bool-cases (same x a)) [
  | inl here ↦ Memᴰ.head (sym (same-true x a here))
  | inr there ↦ Memᴰ.tail (Mem-includes xs a (rw there at h))
]

pub includes-Mem : (xs : List Text) (a : Text) → Memᴰ a xs → includes xs a ≡ true
includes-Mem [] a m = absurd (Memᴰ.not-nil m)
includes-Mem (x ∷ xs) a m = elim (Memᴰ.cases_cons m) [
  | inl e ↦ rw (e, same_refl x) refl
  | inr later ↦ elim (Bool-cases (same x a)) [
    | inl here ↦ rw here refl
    | inr there ↦ rw (there, includes-Mem xs a later) refl
  ]
]

some-injective : (a b : Text) → some a ≡ some b → a ≡ b
some-injective a b h = cc

counts_iff :
    (requester : Option Text) (a : Text)
    → (counts requester a ≡ true) ↔ ((a ≢ []) × (requester ≢ some a))
counts_iff requester [] = (λ h. absurd (cc), λ (n, _). absurd (n refl))
counts_iff none (c ∷ a) = (λ _. (λ e. cc, λ e. cc), λ _. refl)
counts_iff (some r) (c ∷ a) = (
  λ h. (
    λ e. cc,
    λ e. absurd (
        let t : same (c ∷ a) r ≡ true = rw (some-injective r (c ∷ a) e) (same_refl (c ∷ a)) in
        let n = rw t at h in cc),
  ),
  λ (_, other). rw (not-same (c ∷ a) r (λ e. other (ap some (sym e)))) refl,
)

AllApprovers-weaken :
    (requester : Option Text) (a : Text) (given names : List Text)
    → AllApprovers requester given names
    → AllApprovers requester (a ∷ given) names
AllApprovers-weaken requester a given [] h = tt
AllApprovers-weaken requester a given (n ∷ names) h =
    ((Memᴰ.tail h.0.0, h.0.1, h.0.2), AllApprovers-weaken requester a given names h.1)

approvers-AllApprovers :
    (requester : Option Text) (given : List Text)
    → AllApprovers requester given (approvers requester given)
      × Different (approvers requester given)
unfolding approvers
approvers-AllApprovers requester [] = (tt, tt)
approvers-AllApprovers requester (a ∷ given) =
    let others = approvers requester given in
    let (all, different) = approvers-AllApprovers requester given in
    let wider = AllApprovers-weaken requester a given others all in
    elim (Bool-cases (counts requester a)) [
      | inl counted ↦ elim (Bool-cases (includes others a)) [
        | inl known ↦ rw (counted, known) (wider, different)
        | inr new ↦
            let (named, other) = (counts_iff requester a).0 counted in
            rw (counted, new)
              (
                ((Memᴰ.head refl, named, other), wider),
                (λ m. absurd (let t = includes-Mem others a m in cc), different),
              )
      ]
      | inr ignored ↦ rw ignored (wider, different)
    ]

approvers-Mem :
    (requester : Option Text) (given : List Text) (a : Text)
    → IsApprover requester given a
    → Memᴰ a (approvers requester given)
unfolding approvers
approvers-Mem requester [] a p = absurd (Memᴰ.not-nil p.0)
approvers-Mem requester (g ∷ given) a (m, named, other) =
    let others = approvers requester given in
    elim (Memᴰ.cases_cons m) [
      | inl e ↦
          let counted : counts requester g ≡ true =
            rw (← e) ((counts_iff requester a).1 (named, other)) in
          elim (Bool-cases (includes others g)) [
            | inl known ↦ rw (counted, known) (Memᴰ.cast e (Mem-includes others g known))
            | inr new ↦ rw (counted, new) (Memᴰ.head e)
          ]
      | inr later ↦
          let kept = approvers-Mem requester given a (later, named, other) in
          elim (Bool-cases (counts requester g && not (includes others g))) [
            | inl added ↦ rw added (Memᴰ.tail kept)
            | inr same_set ↦ rw same_set kept
          ]
    ]

-- Without one of its members a list is shorter, and has the others.
shorter :
    (a : Text) (ys : List Text)
    → Memᴰ a ys
    → (rest : List Text) × (size ys ≡ suc (size rest))
      × ((b : Text) → b ≢ a → Memᴰ b ys → Memᴰ b rest)
shorter a [] m = absurd (Memᴰ.not-nil m)
shorter a (y ∷ ys) m = elim (Memᴰ.cases_cons m) [
  | inl e ↦ (
    ys,
    refl,
    λ b n k. elim (Memᴰ.cases_cons k) [ inl f ↦ absurd (n (f ∙ sym e)) | inr later ↦ later ],
  )
  | inr later ↦
      let (rest, short, kept) = shorter a ys later in
      (
        y ∷ rest,
        ap suc short,
        λ b n k. elim (Memᴰ.cases_cons k) [
          | inl f ↦ Memᴰ.head f
          | inr further ↦ Memᴰ.tail (kept b n further)
        ],
      )
]

size_below :
    (xs ys : List Text) → Different xs → ((a : Text) → Memᴰ a xs → Memᴰ a ys) → size xs ≤ size ys
size_below [] ys d within = omega arith
size_below (x ∷ xs) ys d within =
    let (rest, short, kept) = shorter x ys (within x (Memᴰ.head refl)) in
    let inner =
      size_below xs rest d.1
        (λ b m. kept b (λ e. d.0 (Memᴰ.cast (sym e) m)) (within b (Memᴰ.tail m))) in
    omega (arith, short, inner)

AllApprovers-Mem :
    (requester : Option Text) (given names : List Text) (a : Text)
    → AllApprovers requester given names
    → Memᴰ a names
    → IsApprover requester given a
AllApprovers-Mem requester given [] a h m = absurd (Memᴰ.not-nil m)
AllApprovers-Mem requester given (n ∷ names) a h m = elim (Memᴰ.cases_cons m) [
  | inl e ↦ rw e h.0
  | inr later ↦ AllApprovers-Mem requester given names a h.1 later
]

-- The size of the set of approvals is the size of the largest quorum.
pub approvers-HasQuorum :
    (requester : Option Text) (given : List Text) (required : ℕ)
    → (required ≤ size (approvers requester given)) ↔ HasQuorum requester given required
approvers-HasQuorum requester given required = (
  λ enough.
      let (all, different) = approvers-AllApprovers requester given in
      (approvers requester given, different, all, enough),
  λ (names, different, all, enough).
      let below =
        size_below names (approvers requester given) different (λ a m.
          approvers-Mem requester given a (AllApprovers-Mem requester given names a all m)) in
      omega (arith, enough, below),
)

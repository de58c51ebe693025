-- ===== src/Effect.antt =====
-- Code that changes a state and may throw: what it changed before it threw stays changed.
use cixtech.Prelude.{◌≡◌, refl, ◌⊎◌, inl, inr, ap, ◌∙◌}
use cixtech.Errors.{Result, ok, err, Error}

abbrev pub Effect : Type 0 → Type 0 → Type 0
Effect W A = W → Result A × W

abbrev pub run_on : {W A B : Type 0} → Result A × W → (A → Effect W B) → Result B × W
run_on (err thrown, w) next = (err thrown, w)
run_on (ok value, w) next = next value w

infixl 5 ◌>>=◌ ◌>>◌
unfoldable pub ◌>>=◌ : {W A B : Type 0} → Effect W A → (A → Effect W B) → Effect W B
◌>>=◌ first next w = run_on (first w) next

abbrev pub ◌>>◌ : {W A B : Type 0} → Effect W A → Effect W B → Effect W B
first >> next = first >>= λ _. next

abbrev pub done : {W A : Type 0} → A → Effect W A
done value w = (ok value, w)

abbrev pub throw : {W A : Type 0} → Error → Effect W A
throw e w = (err e, w)

-- `try { … } finally { … }`, where the last part does not throw.
abbrev pub finally : {W A : Type 0} → Effect W A → (W → W) → Effect W A
finally body last w = let r = body w in (r.0, last r.1)

-- `try { … } catch {}`
abbrev pub swallow : {W A : Type 0} → Effect W A → Effect W (Unit {0})
swallow body w = (ok tt, (body w).1)

-- An operation that leaves the state as it was when it throws.
abbrev pub attempt : {W A : Type 0} → W → Result (A × W) → Result A × W
attempt w (err thrown) = (err thrown, w)
attempt w (ok (value, w')) = (ok value, w')

run_on-eq-ok :
    {W A B : Type 0} (r : Result A × W) (next : A → Effect W B) (y : B) (w : W)
    → run_on r next ≡ (ok y, w)
    → (x : A) × (v : W) × (r ≡ (ok x, v)) × (next x v ≡ (ok y, w))
run_on-eq-ok (err thrown, v) next y w returned = cc
run_on-eq-ok (ok x, v) next y w returned = (x, v, refl, returned)

-- A sequence that returns has run its first part to a value, and the rest on it.
pub >>=-eq-ok :
    {W A B : Type 0} (first : Effect W A) (next : A → Effect W B) (w v : W) (y : B)
    → (first >>= next) w ≡ (ok y, v)
    → (x : A) × (u : W) × (first w ≡ (ok x, u)) × (next x u ≡ (ok y, v))
unfolding ◌>>=◌
>>=-eq-ok first next w v y h = run_on-eq-ok (first w) next y v h

-- What each part keeps, the sequence keeps.
pub >>=-keeps :
    {W A B : Type 0} (P : W → Type 0) (first : Effect W A) (next : A → Effect W B)
    → ((w : W) → P w → P (first w).1)
    → ((x : A) (w : W) → P w → P (next x w).1)
    → (w : W) → P w
    → P ((first >>= next) w).1
unfolding ◌>>=◌
>>=-keeps {W} {A} {B} P first next p q w h = continued (first w) (p w h)
  where
    continued : (r : Result A × W) → P r.1 → P (run_on r next).1
    continued (err thrown, v) k = k
    continued (ok x, v) k = q x v k

-- A sequence throws where its first part does, or is the rest on the value of the first part.
pub >>=-split :
    {W A B : Type 0} (first : Effect W A) (next : A → Effect W B) (w : W)
    → ((e : Error) × ((first w).0 ≡ err e) × ((first >>= next) w ≡ (err e, (first w).1)))
      ⊎ ((x : A) × ((first w).0 ≡ ok x) × ((first >>= next) w ≡ next x (first w).1))
unfolding ◌>>=◌
>>=-split {W} {A} {B} first next w = split (first w)
  where
    split :
        (r : Result A × W)
        → ((e : Error) × (r.0 ≡ err e) × (run_on r next ≡ (err e, r.1)))
          ⊎ ((x : A) × (r.0 ≡ ok x) × (run_on r next ≡ next x r.1))
    split (err e, v) = inl (e, refl, refl)
    split (ok x, v) = inr (x, refl, refl)

-- A last part that keeps what is viewed of the state.
pub >>=-view :
    {W A B F : Type 0} (view : W → F) (first : Effect W A) (next : A → Effect W B)
    → ((x : A) (w : W) → view (next x w).1 ≡ view w)
    → (w : W) → view ((first >>= next) w).1 ≡ view (first w).1
>>=-view {W} {A} {B} view first next keep w = elim (>>=-split first next w) [
  | inl (e, _, whole) ↦ ap (λ (r : Result B × W). view r.1) whole
  | inr (x, _, whole) ↦ ap (λ (r : Result B × W). view r.1) whole ∙ keep x (first w).1
]

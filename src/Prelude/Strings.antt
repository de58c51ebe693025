-- ===== src/Prelude/Strings.antt =====
-- Strings as lists of code units. Identifiers and account keys are built by concatenation and
-- taken apart by prefix, so they are lists and not native texts.
use Prim.Native.Nat.{ℕ, ◌-◌}
use Prim.Native.Char.{code}
use Prim.Native.String.{String}
use mathlib.Core.Path.{◌≡◌}
use mathlib.Core.Logic.{◌≢◌}
use native.Mathlib.Omega.{arith}
use mathlib.Core.Bool.{Bool, true, false, ◌&&◌}
use mathlib.Core.List.{List, [], ◌∷◌, reverse}
use native.Mathlib.Decide.{ℕ_discrete}
use cixtech.Prelude.Tests.{◌==◌, leb, if◌then◌else◌}

abbrev pub Text : Type 0
Text = List ℕ

-- The code units of a literal.
abbrev pub codes : String → Text
codes String.[] = []
codes (String.◌∷◌ c s) = code c ∷ codes s

unfoldable pub Text-discrete : Discrete Text
unfolding ℕ_discrete
Text-discrete = hlevel ℕ_discrete

-- `a === b`
abbrev pub same : Text → Text → Bool
same a b = elim (Text-discrete a b) [ yes _ ↦ true | no _ ↦ false ]

pub same-true : (a b : Text) → same a b ≡ true → a ≡ b
same-true a b h = held (Text-discrete a b) h
  where
    held : (d : Dec (a ≡ b)) → ◌≡◌ {A = Bool} (elim d [ yes _ ↦ true | no _ ↦ false ]) true → a ≡ b
    held (yes e) k = e
    held (no _) k = absurd (cc)

pub same_refl : (a : Text) → same a a ≡ true
same_refl a = ground arith

pub same-false : (a b : Text) → same a b ≡ false → a ≢ b
same-false a b h e = absurd (let t : same a b ≡ true = rw e (same_refl b) in cc)

-- `set.has(a)`, `list.includes(a)`
abbrev pub includes : List Text → Text → Bool
includes [] a = false
includes (x ∷ xs) a = if same x a then true else includes xs a

-- `s.startsWith(p)`
abbrev pub starts_with : Text → Text → Bool
starts_with s [] = true
starts_with [] (p ∷ ps) = false
starts_with (c ∷ s) (p ∷ ps) = (c == p) && starts_with s ps

-- `s.endsWith(p)`
abbrev pub ends_with : Text → Text → Bool
ends_with s p = starts_with (reverse s) (reverse p)

-- `s.split(sep, 1)[0]` for a one-unit separator: all before its first occurrence.
abbrev pub before : ℕ → Text → Text
before sep [] = []
before sep (c ∷ s) = if c == sep then [] else c ∷ before sep s

-- `s.toUpperCase()`, on ASCII.
abbrev pub upper : Text → Text
upper [] = []
upper (c ∷ s) = (if leb b'a' c && leb c b'z' then c - 32 else c) ∷ upper s

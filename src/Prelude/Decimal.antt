-- ===== src/Prelude/Decimal.antt =====
-- `n.toString()` of a `bigint` or of a whole number: its decimal digits.
use Prim.Native.Nat.{ℕ, zero, suc, ◌+◌, ◌-◌, ◌*◌, ◌/◌, ◌%◌, ◌<◌, ◌≤◌}
use mathlib.Core.Path.{◌≡◌, refl, ap, sym}
use mathlib.Core.Logic.{◌≢◌, inl, inr}
use mathlib.Core.List.{[], ◌∷◌, ◌++◌}
use native.Mathlib.Omega.{arith}
use cixtech.Prelude.Tests.{ltb, if◌then◌else◌, Bool-cases}
use cixtech.Prelude.Strings.{Text}
use cixtech.Prelude.Int.{ℤ, pos, negsuc}

-- On fuel; `n + 1` rounds are enough for `n`.
unfoldable pub digits : ℕ → ℕ → Text
digits zero n = []
digits (suc fuel) n =
    let more = digits fuel (n / 10) ++ (b'0' + n % 10) ∷ [] in
    if ltb n 10 then (b'0' + n) ∷ [] else more

unfoldable pub nat_text : ℕ → Text
unfolding digits
nat_text n = digits (suc n) n

unfoldable pub int_text : ℤ → Text
unfolding nat_text
int_text (pos n) = nat_text n
int_text (negsuc n) = b'-' ∷ nat_text (suc n)

-- The number that digits stand for, read from the left.
read_digits : ℕ → Text → ℕ
read_digits acc [] = acc
read_digits acc (c ∷ s) = read_digits (acc * 10 + (c - b'0')) s

read_digits-append :
    (acc : ℕ) (s : Text) (c : ℕ)
    → read_digits acc (s ++ c ∷ []) ≡ read_digits acc s * 10 + (c - b'0')
unfolding read_digits
read_digits-append acc [] c = refl
read_digits-append acc (d ∷ s) c = read_digits-append (acc * 10 + (d - b'0')) s c

read_digits-digits : (fuel n : ℕ) → n < fuel → read_digits 0 (digits fuel n) ≡ n
unfolding digits read_digits
read_digits-digits zero n h = elim h [ ]
read_digits-digits (suc fuel) n h = elim (Bool-cases (ltb n 10)) [
  | inl small ↦ rw small (omega arith)
  | inr large ↦
      rw
        (
          large,
          read_digits-append 0 (digits fuel (n / 10)) (b'0' + n % 10),
          read_digits-digits fuel (n / 10) (ground arith),
        )
        (omega arith)
]

-- Each unit of a text is at least as large as `lowest`.
abbrev pub AllFrom : ℕ → Text → Type 0
AllFrom lowest [] = Unit {0}
AllFrom lowest (c ∷ s) = (lowest ≤ c) × AllFrom lowest s

AllFrom-append :
    (lowest : ℕ) (s : Text) (c : ℕ) → AllFrom lowest s → lowest ≤ c → AllFrom lowest (s ++ c ∷ [])
AllFrom-append lowest [] c h le = (le, tt)
AllFrom-append lowest (d ∷ s) c h le = (h.0, AllFrom-append lowest s c h.1 le)

digits-AllFrom : (fuel n : ℕ) → AllFrom b'0' (digits fuel n)
unfolding digits
digits-AllFrom zero n = tt
digits-AllFrom (suc fuel) n = elim (Bool-cases (ltb n 10)) [
  | inl small ↦ rw small (omega arith, tt)
  | inr large ↦ rw large (
      AllFrom-append b'0' (digits fuel (n / 10)) (b'0' + n % 10) (digits-AllFrom fuel (n / 10))
        (omega arith))
]

pub nat_text-injective : (n m : ℕ) → nat_text n ≡ nat_text m → n ≡ m
unfolding nat_text
nat_text-injective n m h =
    let a = read_digits-digits (suc n) n (omega arith) in
    let b = read_digits-digits (suc m) m (omega arith) in cc (ap (read_digits 0) h)

nat_text-AllFrom : (n : ℕ) → AllFrom b'0' (nat_text n)
unfolding nat_text
nat_text-AllFrom n = digits-AllFrom (suc n) n

minus_differs : (s t : Text) → AllFrom b'0' s → s ≢ b'-' ∷ t
minus_differs [] t h e = cc
minus_differs (c ∷ s) t h e = ground arith

-- Two integers with the same digits are equal.
pub int_text-injective : (a b : ℤ) → int_text a ≡ int_text b → a ≡ b
unfolding int_text
int_text-injective (pos n) (pos m) h = ap pos (nat_text-injective n m h)
int_text-injective (pos n) (negsuc m) h =
    absurd (minus_differs (nat_text n) (nat_text (suc m)) (nat_text-AllFrom n) h)
int_text-injective (negsuc n) (pos m) h =
    absurd (minus_differs (nat_text m) (nat_text (suc n)) (nat_text-AllFrom m) (sym h))
int_text-injective (negsuc n) (negsuc m) h =
    let e : nat_text (suc n) ≡ nat_text (suc m) = cc in
    let e' : suc n ≡ suc m = nat_text-injective (suc n) (suc m) e in
    let e'' : n ≡ m = omega arith in ap negsuc e''

from_one : (s : Text) → AllFrom b'0' s → AllFrom 1 s
from_one [] h = tt
from_one (c ∷ s) h = (omega arith, from_one s h.1)

-- Neither the digits nor the sign are the unit 0.
pub int_text-AllFrom : (a : ℤ) → AllFrom 1 (int_text a)
unfolding int_text
int_text-AllFrom (pos n) = from_one (nat_text n) (nat_text-AllFrom n)
int_text-AllFrom (negsuc n) = (omega arith, from_one (nat_text (suc n)) (nat_text-AllFrom (suc n)))

-- ===== src/Tron/Fields/Fuel.antt =====
-- The loop of `readFields` ends.
use cixtech.Prelude.{
  ℕ, ◌+◌, ◌*◌, ◌/◌, ◌%◌, ◌^◌, ◌==◌, ltb, ◌≤◌, ◌<◌, zero, suc, List, [], ◌∷◌, some, ◌≡◌, refl, ◌∙◌,
  arith, Bool-cases, inl, inr,
}
use cixtech.Errors.{◌>>=◌, Result, ok, err, Result-cases, >>=-eq-ok}
use cixtech.Tron.Hex.{size, drop}
use cixtech.Tron.Fields.{
  Field, varint_from, varint, numbered, delimited, skipped, payload, keyed, read_field, consed,
  read_from, read_fields,
}

drop-size : (n : ℕ) (bs : List ℕ) → size (drop n bs) ≤ size bs
drop-size zero bs = omega arith
drop-size (suc n) [] = omega arith
drop-size (suc n) (b ∷ bs) = omega (arith, drop-size n bs)

-- A number takes a byte at least.
varint_from-shorter :
    (shift so_far n : ℕ) (bs rest : List ℕ)
    → varint_from shift so_far bs ≡ ok (n, rest)
    → size rest < size bs
unfolding varint_from
varint_from-shorter shift so_far n [] rest h = absurd (cc)
varint_from-shorter shift so_far n (b ∷ bs) rest h =
    let result = so_far + b % 128 * 2 ^ shift in
    let later = varint_from-shorter (shift + 7) result n bs rest in
    elim (Bool-cases (ltb b 128)) [
      | inl last ↦
          let same_rest : bs ≡ rest = let e = rw last at h in cc in rw (← same_rest) (omega arith)
      | inr more ↦ elim (Bool-cases (ltb 70 (shift + 7))) [
        | inl overlong ↦ absurd (let e = rw (more, overlong) at h in cc)
        | inr fits ↦ let shorter = later (rw (more, fits) at h) in omega (arith, shorter)
      ]
    ]

left : {A B : Type 0} {a b : A} {x y : B} → ◌≡◌ {A = Result (A × B)} (ok (a, x)) (ok (b, y)) → x ≡ y
left h = cc

numbered-shorter :
    (number wire : ℕ) (bs rest : List ℕ) (f : Field)
    → (varint bs >>= numbered number wire) ≡ ok (f, rest)
    → size rest ≤ size bs
numbered-shorter number wire bs rest f h =
    let ((n, after), read, paid) = >>=-eq-ok (varint bs) (numbered number wire) h in
    let same_rest : after ≡ rest = left paid in
    rw (← same_rest) (omega (arith, varint_from-shorter 0 0 n bs after read))

delimited-shorter :
    (number wire : ℕ) (bs rest : List ℕ) (f : Field)
    → (varint bs >>= delimited number wire) ≡ ok (f, rest)
    → size rest ≤ size bs
delimited-shorter number wire bs rest f h =
    let ((len, after), read, paid) = >>=-eq-ok (varint bs) (delimited number wire) h in
    let shorter = varint_from-shorter 0 0 len bs after read in
    elim (Bool-cases (ltb (size after) len)) [
      | inl short ↦ absurd (let e = rw short at paid in cc)
      | inr fits ↦
          let same_rest : drop len after ≡ rest = left (rw fits at paid) in
          rw (← same_rest) (omega (arith, shorter, drop-size len after))
    ]

skipped-shorter :
    (width number wire : ℕ) (bs rest : List ℕ) (f : Field)
    → skipped width number wire bs ≡ ok (f, rest)
    → size rest ≤ size bs
skipped-shorter width number wire bs rest f h =
    let same_rest : drop width bs ≡ rest = left h in rw (← same_rest) (drop-size width bs)

payload-shorter :
    (number wire : ℕ) (bs rest : List ℕ) (f : Field)
    → payload number wire bs ≡ ok (f, rest)
    → size rest ≤ size bs
payload-shorter number wire bs rest f h = elim (Bool-cases (wire == 0)) [
  | inl zeroth ↦ numbered-shorter number wire bs rest f (rw zeroth at h)
  | inr not_zero ↦ elim (Bool-cases (wire == 2)) [
    | inl second ↦ delimited-shorter number wire bs rest f (rw (not_zero, second) at h)
    | inr not_two ↦ elim (Bool-cases (wire == 5)) [
      | inl fifth ↦ skipped-shorter 4 number wire bs rest f (rw (not_zero, not_two, fifth) at h)
      | inr not_five ↦ elim (Bool-cases (wire == 1)) [
        | inl first ↦
            skipped-shorter 8 number wire bs rest f (rw (not_zero, not_two, not_five, first) at h)
        | inr not_one ↦ absurd (let e = rw (not_zero, not_two, not_five, not_one) at h in cc)
      ]
    ]
  ]
]

read_field-shorter :
    (bs rest : List ℕ) (f : Field) → read_field bs ≡ ok (f, rest) → size rest < size bs
unfolding read_field
read_field-shorter bs rest f h =
    let ((key, after), read, paid) = >>=-eq-ok (varint bs) keyed h in
    omega (
      arith,
      varint_from-shorter 0 0 key bs after read,
      payload-shorter (key / 8) (key % 8) after rest f paid,
    )

-- The fuel of the length of the buffer lasts, and more of it changes nothing.
pub read_from-enough :
    (fuel : ℕ) (bs : List ℕ)
    → size bs ≤ fuel
    → (r : Result (List Field)) × (read_from fuel bs ≡ some r)
unfolding read_from
read_from-enough fuel [] h = (ok [], refl)
read_from-enough zero (b ∷ bs) h = absurd (omega (arith, h))
read_from-enough (suc fuel) (b ∷ bs) h = elim (Result-cases (read_field (b ∷ bs))) [
  | inl ((f, rest), read) ↦
      let shorter = read_field-shorter (b ∷ bs) rest f read in
      let (r, e) = read_from-enough fuel rest (omega (arith, shorter, h)) in
      (consed f r, rw (read, e) refl)
  | inr (thrown, refused) ↦ (err thrown, rw refused refl)
]

read_from_same :
    (fuel more : ℕ) (bs : List ℕ)
    → size bs ≤ fuel
    → size bs ≤ more
    → read_from fuel bs ≡ read_from more bs
unfolding read_from
read_from_same zero zero [] h k = refl
read_from_same zero (suc more) [] h k = refl
read_from_same (suc fuel) zero [] h k = refl
read_from_same (suc fuel) (suc more) [] h k = refl
read_from_same zero more (b ∷ bs) h k = absurd (omega (arith, h))
read_from_same (suc fuel) zero (b ∷ bs) h k = absurd (omega (arith, k))
read_from_same (suc fuel) (suc more) (b ∷ bs) h k = elim (Result-cases (read_field (b ∷ bs))) [
  | inl ((f, rest), read) ↦
      let shorter = read_field-shorter (b ∷ bs) rest f read in
      rw
        (
          read,
          read_from_same fuel more rest (omega (arith, shorter, h)) (omega (arith, shorter, k)),
        )
        refl
  | inr (thrown, refused) ↦ rw refused refl
]

-- `readFields` ends on every buffer: from the buffer's length on, any number of rounds gives the same
-- result, which is that of `read_fields`.
pub read_fields_ends :
    (fuel : ℕ) (bs : List ℕ) → size bs ≤ fuel → read_from fuel bs ≡ some (read_fields bs)
unfolding read_fields
read_fields_ends fuel bs h =
    let (r, e) = read_from-enough (size bs) bs (omega arith) in
    read_from_same fuel (size bs) bs h (omega arith) ∙ rw e refl

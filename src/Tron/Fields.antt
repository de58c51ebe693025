-- ===== src/Tron/Fields.antt =====
-- `readFields` of backend/src/chains/tron/tron-tx-verify.ts: the fields of a protobuf message. The
-- position in the buffer is the list of the bytes that are left.
pub mod Fuel
use mathlib.Core.Option
use cixtech.Prelude.{
  ℕ, ◌+◌, ◌*◌, ◌/◌, ◌%◌, ◌^◌, zero, suc, leb, ltb, ◌==◌, if◌then◌else◌, List, [], ◌∷◌, Option, none,
  some, get_or,
}
use cixtech.Errors.{Result, ok, err, Error, ErrorCode, ◌>>=◌}
use cixtech.Tron.Hex.{size, take, drop}

pub record Field : Type 0 where
  pub number : ℕ
  pub wire : ℕ
  pub bytes : Option (List ℕ)
  pub value : Option ℕ

abbrev pub tx_mismatch : Error
tx_mismatch = Error.app ErrorCode.tron_tx_mismatch

-- The numbers of `varint` after `shift` bits; the bits of a byte stand above those so far.
unfoldable pub varint_from : ℕ → ℕ → List ℕ → Result (ℕ × List ℕ)
varint_from shift so_far [] = err tx_mismatch
varint_from shift so_far (b ∷ bs) =
    let result = so_far + b % 128 * 2 ^ shift in
    let more = varint_from (shift + 7) result bs in
    if ltb b 128 then ok (result, bs) else if ltb 70 (shift + 7) then err tx_mismatch else more

abbrev pub varint : List ℕ → Result (ℕ × List ℕ)
varint bs = varint_from 0 0 bs

abbrev pub numbered : ℕ → ℕ → ℕ × List ℕ → Result (Field × List ℕ)
numbered number wire (n, rest) =
    ok (record { number = number; wire = wire; bytes = none; value = some n }, rest)

abbrev pub delimited : ℕ → ℕ → ℕ × List ℕ → Result (Field × List ℕ)
delimited number wire (len, rest) =
    if ltb (size rest) len
    then err tx_mismatch
    else ok (
      record { number = number; wire = wire; bytes = some (take len rest); value = none },
      drop len rest,
    )

-- A fixed width is skipped, past the end of the buffer as well.
abbrev pub skipped : ℕ → ℕ → ℕ → List ℕ → Result (Field × List ℕ)
skipped width number wire rest =
    ok (record { number = number; wire = wire; bytes = none; value = none }, drop width rest)

abbrev pub payload : ℕ → ℕ → List ℕ → Result (Field × List ℕ)
payload number wire rest =
    if wire == 0
    then varint rest >>= numbered number wire
    else if wire == 2
    then varint rest >>= delimited number wire
    else if wire == 5
    then skipped 4 number wire rest
    else if wire == 1
    then skipped 8 number wire rest
    else err tx_mismatch

abbrev pub keyed : ℕ × List ℕ → Result (Field × List ℕ)
keyed (key, rest) = payload (key / 8) (key % 8) rest

-- A round of the loop: a field and the bytes after it.
unfoldable pub read_field : List ℕ → Result (Field × List ℕ)
unfolding varint_from
read_field bs = varint bs >>= keyed

abbrev pub consed : Field → Result (List Field) → Result (List Field)
consed f (err thrown) = err thrown
consed f (ok fields) = ok (f ∷ fields)

abbrev pub go_on :
    (List ℕ → Option (Result (List Field))) → Result (Field × List ℕ) → Option (Result (List Field))
go_on loop (err thrown) = some (err thrown)
go_on loop (ok (f, rest)) = Option.map (consed f) (loop rest)

-- The loop on fuel; `none` where the fuel does not last.
unfoldable pub read_from : ℕ → List ℕ → Option (Result (List Field))
read_from fuel [] = some (ok [])
read_from zero (b ∷ bs) = none
read_from (suc fuel) (b ∷ bs) = go_on (read_from fuel) (read_field (b ∷ bs))

-- A round takes a byte at least, so the bytes of the buffer are fuel enough.
unfoldable pub read_fields : List ℕ → Result (List Field)
unfolding read_from
read_fields bs = get_or (read_from (size bs) bs) (err Error.plain)

-- ===== src/Tron/Verify.antt =====
-- `verifiedTronSigningHash` of backend/src/chains/tron/tron-tx-verify.ts, over any SHA-256.
use cixtech.Prelude.{
  same-true, ap, ◌∙◌, inl, inr, ℕ, ℤ, pos, eqb_ℤ, eq_of_parts, Text, same, get_or, Bool, true,
  false, ◌||◌, not, ◌==◌, List, [], Option, none, some, ◌≡◌, refl, sym, arith,
}
use cixtech.Prelude.Tests.{Option-cases}
use cixtech.Errors.{Result, ok, throw_if, ◌>>=◌, ◌>>◌, >>=-eq-ok}
use cixtech.Tron.Hex.{size, hex_of, from_hex, strip_0x, lower}
use cixtech.Tron.Fields.{tx_mismatch}
use cixtech.Tron.Decode.{
  decode_bytes, is_unusable, DecodedTransfer, contract_type_transfer, decode_tron_raw_data,
}

pub record TronTransferIntent : Type 0 where
  pub owner_hex : Text
  pub to_hex : Text
  pub amount_base_units : ℤ
  pub contract_hex : Option Text

-- What the node returns: `txID` and `raw_data_hex`.
pub record NodeTransaction : Type 0 where
  pub tx_id : Option Text
  pub raw_data_hex : Option Text

-- `s.replace(/^0x/, "").toLowerCase()`
abbrev pub clean : Text → Text
clean s = lower (strip_0x s)

abbrev pub raw_hex : NodeTransaction → Text
raw_hex tx = clean (get_or tx.raw_data_hex [])

abbrev pub tx_id_of : NodeTransaction → Text
tx_id_of tx = clean (get_or tx.tx_id [])

-- The last comparison: of the type where no token contract is wanted, else of the token contract.
abbrev pub contract_differs : Option Text → DecodedTransfer → Bool
contract_differs none got = not (got.contract_type == contract_type_transfer)
contract_differs (some wanted) got = elim got.contract_hex [
  | none ↦ true
  | some found ↦ not (same found (clean wanted))
]

unfoldable pub compared : TronTransferIntent → DecodedTransfer → Result (Unit {0})
compared intent got = do
  throw_if (not (same got.owner_hex (clean intent.owner_hex))) tx_mismatch
  throw_if (not (same got.to_hex (clean intent.to_hex))) tx_mismatch
  throw_if (not (eqb_ℤ (pos got.amount) intent.amount_base_units)) tx_mismatch
  throw_if (contract_differs intent.contract_hex got) tx_mismatch

module _ (sha256 : List ℕ → List ℕ) where
  -- The rest, after the id was found to be there.
  abbrev pub hashed : NodeTransaction → TronTransferIntent → Result (List ℕ)
  hashed tx intent = do
    let digest = sha256 (from_hex (raw_hex tx))
    throw_if ((size (raw_hex tx) == 0) || not (same (hex_of digest) (tx_id_of tx))) tx_mismatch
    got ← decode_tron_raw_data (raw_hex tx)
    compared intent got
    ok digest

  unfoldable pub verified_tron_signing_hash : NodeTransaction → TronTransferIntent → Result (List ℕ)
  unfolding compared decode_tron_raw_data
  verified_tron_signing_hash tx intent = do
    throw_if (size (tx_id_of tx) == 0) tx_mismatch
    hashed tx intent

-- The transfer is native where no token contract is wanted, else on that contract.
abbrev pub IsOn : Option Text → DecodedTransfer → Type 0
IsOn none got = got.contract_type ≡ 1
IsOn (some wanted) got = got.contract_hex ≡ some (lower (strip_0x wanted))

-- What the payout authorised is what the transaction does.
pub record IsAuthorized (intent : TronTransferIntent) (got : DecodedTransfer) : Type 0 where
  pub owner : got.owner_hex ≡ lower (strip_0x intent.owner_hex)
  pub to : got.to_hex ≡ lower (strip_0x intent.to_hex)
  pub amount : pos got.amount ≡ intent.amount_base_units
  pub contract : IsOn intent.contract_hex got

throw_if-then :
    {A : Type 0} {y : A} (test : Bool) (rest : Result A)
    → (throw_if test tx_mismatch >> rest) ≡ ok y
    → (test ≡ false) × (rest ≡ ok y)
throw_if-then true rest h = absurd (cc)
throw_if-then false rest h = (refl, h)

throw_if-ok : (test : Bool) (u : Unit {0}) → throw_if test tx_mismatch ≡ ok u → test ≡ false
throw_if-ok true u h = absurd (cc)
throw_if-ok false u h = refl

not-false : (b : Bool) → not b ≡ false → b ≡ true
not-false true h = refl
not-false false h = absurd (cc)

or-false : (a b : Bool) → (a || b) ≡ false → b ≡ false
or-false true b h = absurd (cc)
or-false false b h = h

eqb_ℤ-true : (a b : ℤ) → eqb_ℤ a b ≡ true → a ≡ b
eqb_ℤ-true a b h = eq_of_parts a b (ground arith)

contract_differs-IsOn :
    (wanted : Option Text) (got : DecodedTransfer)
    → contract_differs wanted got ≡ false
    → IsOn wanted got
contract_differs-IsOn none got h = ground arith
contract_differs-IsOn (some wanted) got h = elim (Option-cases got.contract_hex) [
  | inl native ↦ absurd (let e = rw native at h in cc)
  | inr (found, e) ↦
      let differs : not (same found (clean wanted)) ≡ false = rw e at h in
      e ∙ ap some (same-true found (clean wanted) (not-false _ differs))
]

-- What decodes without a prefix decodes as the bytes of its digits.
decode_tron_raw_data-ok :
    (digits : Text) (got : DecodedTransfer)
    → strip_0x digits ≡ digits
    → decode_tron_raw_data digits ≡ ok got
    → decode_bytes (from_hex digits) ≡ ok got
unfolding decode_tron_raw_data
decode_tron_raw_data-ok digits got bare h = rw bare at (
    (throw_if-then (is_unusable (strip_0x digits)) (decode_bytes (from_hex (strip_0x digits))) h).1)

compared-IsAuthorized :
    (intent : TronTransferIntent) (got : DecodedTransfer) (u : Unit {0})
    → compared intent got ≡ ok u
    → IsAuthorized intent got
unfolding compared
compared-IsAuthorized intent got u h =
    let last = throw_if (contract_differs intent.contract_hex got) tx_mismatch in
    let sized = not (eqb_ℤ (pos got.amount) intent.amount_base_units) in
    let aimed = not (same got.to_hex (clean intent.to_hex)) in
    let (p1, h1) =
      throw_if-then (not (same got.owner_hex (clean intent.owner_hex)))
        (throw_if aimed tx_mismatch >> (throw_if sized tx_mismatch >> last)) h in
    let (p2, h2) = throw_if-then aimed (throw_if sized tx_mismatch >> last) h1 in
    let (p3, h3) = throw_if-then sized last h2 in
    record {
      owner = same-true _ _ (not-false _ p1);
      to = same-true _ _ (not-false _ p2);
      amount = eqb_ℤ-true _ _ (not-false _ p3);
      contract = contract_differs-IsOn intent.contract_hex got (throw_if-ok _ u h3);
    }

module _ (sha256 : List ℕ → List ℕ) where
  -- Where the raw data that the node returns, without a prefix 0x and in lower case, does not begin
  -- with 0x again, a hash that is handed to the signer is the SHA-256 of the bytes of this raw data
  -- and the transaction's id, and these very bytes decode to one transfer, from the address, to the
  -- destination and of the amount that the payout authorised, on the token contract that it
  -- authorised, or native where it authorised none.
  pub verified_tron_signing_hash-IsAuthorized :
      (tx : NodeTransaction) (intent : TronTransferIntent) (digest : List ℕ)
      → strip_0x (raw_hex tx) ≡ raw_hex tx
      → verified_tron_signing_hash sha256 tx intent ≡ ok digest
      → let raw = from_hex (raw_hex tx) in
        (digest ≡ sha256 raw)
        × (hex_of digest ≡ tx_id_of tx)
        × ((got : DecodedTransfer) × (decode_bytes raw ≡ ok got) × IsAuthorized intent got)
  unfolding verified_tron_signing_hash
  verified_tron_signing_hash-IsAuthorized tx intent digest bare h =
      let (_, h1) = throw_if-then (size (tx_id_of tx) == 0) (hashed sha256 tx intent) h in
      let hash = sha256 (from_hex (raw_hex tx)) in
      let finish : DecodedTransfer → Result (List ℕ) = λ got. compared intent got >> ok hash in
      let (wrong, h2) =
        throw_if-then ((size (raw_hex tx) == 0) || not (same (hex_of hash) (tx_id_of tx)))
          (decode_tron_raw_data (raw_hex tx) >>= finish) h1 in
      let (got, decoded, h3) = >>=-eq-ok (decode_tron_raw_data (raw_hex tx)) finish h2 in
      let (u, same_transfer, h4) = >>=-eq-ok (compared intent got) (λ _. ok hash) h3 in
      (
        let e : hash ≡ digest = cc in sym e,
        let e : hash ≡ digest = cc in rw (← e) (same-true _ _ (not-false _ (or-false _ _ wrong))),
        (
          got,
          decode_tron_raw_data-ok (raw_hex tx) got bare decoded,
          compared-IsAuthorized intent got u same_transfer,
        ),
      )

-- ===== src/Tron/Decode.antt =====
-- `decodeTronRawData` and the two decoders of contracts of
-- backend/src/chains/tron/tron-tx-verify.ts. A text of digits is ASCII.
use cixtech.Prelude.{
  ℕ, leb, ◌%◌, Text, codes, ◌++◌, Bool, ◌&&◌, ◌||◌, not, ◌==◌, starts_with, if◌then◌else◌, is_some,
  get_or, List, [], ◌∷◌, Option, none, some,
}
use cixtech.Errors.{Result, ok, err, throw_if, or_throw, ◌>>=◌, ◌>>◌}
use cixtech.Tron.Hex.{size, take, drop, all, is_digit, is_hex, hex, from_hex, hex_value, strip_0x}
use cixtech.Tron.Fields.{Field, tx_mismatch, read_fields}

pub record DecodedTransfer : Type 0 where
  pub contract_type : ℕ
  pub owner_hex : Text
  pub to_hex : Text
  pub amount : ℕ
  pub contract_hex : Option Text

abbrev pub contract_type_transfer : ℕ
contract_type_transfer = 1

abbrev pub contract_type_trigger_smart_contract : ℕ
contract_type_trigger_smart_contract = 31

abbrev pub transfer_selector : Text
transfer_selector = codes "a9059cbb"

-- `fields.find((f) => f.no === no)`
abbrev pub field : List Field → ℕ → Option Field
field [] number = none
field (f ∷ fields) number = if f.number == number then some f else field fields number

-- `field(f, n)?.bytes`
abbrev pub bytes_of : Option Field → Option (List ℕ)
bytes_of none = none
bytes_of (some f) = f.bytes

-- `field(f, n)?.value ?? 0n`
abbrev pub value_of : Option Field → ℕ
value_of none = 0
value_of (some f) = get_or f.value 0

unfoldable pub decode_transfer_contract : List ℕ → Result DecodedTransfer
unfolding read_fields
decode_transfer_contract value = do
  f ← read_fields value
  ok (record {
    contract_type = contract_type_transfer;
    owner_hex = hex (bytes_of (field f 1));
    to_hex = hex (bytes_of (field f 2));
    amount = value_of (field f 3);
    contract_hex = none;
  })

-- `/^[0-9a-f]$/`
abbrev pub is_lower_hex : ℕ → Bool
is_lower_hex c = is_digit c || (leb b'a' c && leb c b'f')

-- `/^0{24}[0-9a-f]{40}$/`
abbrev pub is_address_word : Text → Bool
is_address_word word =
    (size word == 64) && (all (λ c. c == b'0') (take 24 word) && all is_lower_hex (drop 24 word))

unfoldable pub decode_trigger_smart_contract : List ℕ → Result DecodedTransfer
unfolding read_fields
decode_trigger_smart_contract value = do
  f ← read_fields value
  let data_hex = hex (bytes_of (field f 4))
  throw_if (not (size data_hex == 136) || not (starts_with data_hex transfer_selector)) tx_mismatch
  throw_if (not (value_of (field f 3) == 0)) tx_mismatch
  let addr_word = take 64 (drop 8 data_hex)
  throw_if (not (is_address_word addr_word)) tx_mismatch
  ok (record {
    contract_type = contract_type_trigger_smart_contract;
    owner_hex = hex (bytes_of (field f 1));
    to_hex = codes "41" ++ drop 24 addr_word;
    amount = hex_value (drop 72 data_hex);
    contract_hex = some (hex (bytes_of (field f 2)));
  })

-- `.filter((f) => f.no === 11 && f.bytes)`
abbrev pub contracts_of : List Field → List Field
contracts_of [] = []
contracts_of (f ∷ fields) =
    let rest = contracts_of fields in if (f.number == 11) && is_some f.bytes then f ∷ rest else rest

-- Exactly one contract.
abbrev pub only_contract : List Field → Result (List ℕ)
only_contract (f ∷ []) = or_throw f.bytes tx_mismatch
only_contract fields = err tx_mismatch

unfoldable pub decode_contract : ℕ → List ℕ → Result DecodedTransfer
unfolding decode_transfer_contract decode_trigger_smart_contract
decode_contract contract_type value =
    if contract_type == contract_type_transfer
    then decode_transfer_contract value
    else if contract_type == contract_type_trigger_smart_contract
    then decode_trigger_smart_contract value
    else err tx_mismatch

-- What the bytes of the raw data decode to.
unfoldable pub decode_bytes : List ℕ → Result DecodedTransfer
unfolding read_fields decode_contract
decode_bytes raw = do
  fields ← read_fields raw
  contract ← only_contract (contracts_of fields)
  c ← read_fields contract
  any_fields ← read_fields (get_or (bytes_of (field c 2)) [])
  value ← or_throw (bytes_of (field any_fields 2)) tx_mismatch
  decode_contract (value_of (field c 1)) value

-- `clean.length === 0 || !/^[0-9a-fA-F]+$/.test(clean) || clean.length % 2 !== 0`
abbrev pub is_unusable : Text → Bool
is_unusable digits = (size digits == 0) || (not (all is_hex digits) || not (size digits % 2 == 0))

unfoldable pub decode_tron_raw_data : Text → Result DecodedTransfer
unfolding decode_bytes
decode_tron_raw_data raw_data_hex = do
  throw_if (is_unusable (strip_0x raw_data_hex)) tx_mismatch
  decode_bytes (from_hex (strip_0x raw_data_hex))

-- ===== src/Tron/Examples.antt =====
-- A native transfer of 5 from 41 to 42, with a hash that leaves the bytes as they are.
use cixtech.Prelude.{ℕ, pos, codes, List, [], ◌∷◌, none, some, ◌≡◌, refl, arith, Text-discrete}
use cixtech.Errors.{ok}
use cixtech.Tron.Hex.{hex_of, from_hex}
use cixtech.Tron.Fields.{varint_from, read_field, read_from, read_fields}
use cixtech.Tron.Fields.Fuel.{read_fields_ends}
use cixtech.Tron.Decode.{
  decode_bytes, DecodedTransfer, decode_tron_raw_data, decode_contract, decode_transfer_contract,
  decode_trigger_smart_contract,
}
use cixtech.Tron.Verify.{
  TronTransferIntent, NodeTransaction, raw_hex, tx_id_of, compared, verified_tron_signing_hash,
  IsAuthorized, verified_tron_signing_hash-IsAuthorized,
}

abbrev buffer : List ℕ
buffer = 8 ∷ 150 ∷ 1 ∷ []

read_fields_ends_example : read_from 9 buffer ≡ some (read_fields buffer)
read_fields_ends_example = read_fields_ends 9 buffer (omega arith)

abbrev plain : List ℕ → List ℕ
plain bs = bs

abbrev transaction : NodeTransaction
transaction = record {
  tx_id = some (codes "5a0e0801120a12080a01411201421805");
  raw_data_hex = some (codes "0x5A0E0801120A12080A01411201421805");
}

abbrev intent : TronTransferIntent
intent = record {
  owner_hex = codes "41";
  to_hex = codes "0x42";
  amount_base_units = pos 5;
  contract_hex = none;
}

verified : (digest : List ℕ) × (verified_tron_signing_hash plain transaction intent ≡ ok digest)
unfolding verified_tron_signing_hash compared decode_bytes decode_tron_raw_data decode_contract
    decode_transfer_contract decode_trigger_smart_contract read_fields read_from read_field
    varint_from Text-discrete
verified = (_, refl)

verified_tron_signing_hash-IsAuthorized_example :
    (verified.0 ≡ plain (from_hex (raw_hex transaction)))
    × (hex_of verified.0 ≡ tx_id_of transaction)
    × ((got : DecodedTransfer) × (decode_bytes (from_hex (raw_hex transaction)) ≡ ok got)
        × IsAuthorized intent got)
verified_tron_signing_hash-IsAuthorized_example =
    verified_tron_signing_hash-IsAuthorized plain transaction intent verified.0 refl verified.1

-- With two prefixes the hash is that of no bytes at all.
abbrev marked : List ℕ → List ℕ
marked bs = 170 ∷ bs

abbrev doubled : NodeTransaction
doubled = record {
  tx_id = some (codes "aa");
  raw_data_hex = some (codes "0x0x5a0e0801120a12080a01411201421805");
}

doubled_passes : verified_tron_signing_hash marked doubled intent ≡ ok (170 ∷ [])
unfolding verified_tron_signing_hash compared decode_bytes decode_tron_raw_data decode_contract
    decode_transfer_contract decode_trigger_smart_contract read_fields read_from read_field
    varint_from Text-discrete
doubled_passes = refl

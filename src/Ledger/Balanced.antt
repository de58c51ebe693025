-- ===== src/Ledger/Balanced.antt =====
-- backend/src/ledger/balanced.ts: what makes a journal entry acceptable, and its plain reading.
pub mod Correct
use cixtech.Prelude.{
  ℤ, pos, neg, ◌+ℤ◌, ◌<ℤ◌, leb_ℤ, eqb_ℤ, int_laws, Text, same, if◌then◌else◌, get_or, Bool, true,
  false, not, List, [], ◌∷◌, ◌++◌, Option, none, some, ◌≡◌, refl, ◌≢◌, ◌↔◌, arith,
}
use cixtech.Prelude.Dict.{Dict, lookup, insert, lookup-insert}
use cixtech.Errors.{Result, ok, err, Error, ErrorCode, ◌>>=◌, ◌>>◌, throw_if}
use cixtech.Ledger.Types.{Posting, JournalEntry}
use cixtech.Ledger.Net.{signed}

add_posting : Posting → Dict ℤ → Dict ℤ
unfolding lookup insert
add_posting p net = insert p.asset (get_or (lookup p.asset net) (pos 0) +ℤ signed p) net

-- The loop of `nettedByAsset`, over the totals so far.
netted_from : Dict ℤ → List Posting → Result (Dict ℤ)
netted_from net [] = ok net
netted_from net (p ∷ ps) = do
  throw_if (leb_ℤ p.amount (pos 0)) (Error.app ErrorCode.ledger_invalid_posting)
  netted_from (add_posting p net) ps

pub netted_by_asset : List Posting → Result (Dict ℤ)
unfolding netted_from
netted_by_asset ps = netted_from [] ps

all_zero : Dict ℤ → Bool
all_zero [] = true
all_zero ((_, v) ∷ m) = if eqb_ℤ v (pos 0) then all_zero m else false

pub is_balanced : JournalEntry → Result Bool
unfolding netted_by_asset all_zero
is_balanced entry = do net ← netted_by_asset entry.postings; ok (all_zero net)

abbrev pub is_empty : List Posting → Bool
is_empty [] = true
is_empty (_ ∷ _) = false

unfoldable pub assert_balanced : JournalEntry → Result (Unit {0})
unfolding is_balanced netted_by_asset netted_from add_posting all_zero
assert_balanced entry = do
  throw_if (is_empty entry.postings) (Error.app ErrorCode.ledger_unbalanced_entry)
  balanced ← is_balanced entry
  throw_if (not balanced) (Error.app ErrorCode.ledger_unbalanced_entry)

-- ===== src/Ledger/Memory.antt =====
-- backend/src/stores/memory-ledger.store.ts.
pub mod Laws
use cixtech.Prelude.{
  ℤ, pos, ◌+ℤ◌, Text, same, includes, if◌then◌else◌, get_or, ◌&&◌, Bool, true, false, List, [], ◌∷◌,
  ◌++◌,
}
use cixtech.Prelude.Dict.{Dict, lookup, insert}
use cixtech.Errors.{Result, ok}
use cixtech.Ledger.Types.{Posting, JournalEntry}
use cixtech.Ledger.Net.{signed}
use cixtech.Ledger.Store.{TotalsByType}
use cixtech.Ledger.Totals.{AccountNet, totals_of}

pub record MemoryLedger : Type 0 where
  pub seen_keys : List Text
  pub postings : List Posting
  pub by_entry : Dict (List Posting)

pub empty : MemoryLedger
empty = record { seen_keys = []; postings = []; by_entry = [] }

pub append : JournalEntry → MemoryLedger → Result (Bool × MemoryLedger)
unfolding insert
append entry m =
    if includes m.seen_keys entry.idempotency_key
    then ok (false, m)
    else ok (
      true,
      record {
        seen_keys = entry.idempotency_key ∷ m.seen_keys;
        postings = m.postings ++ entry.postings;
        by_entry = insert entry.id entry.postings m.by_entry;
      },
    )

pub entry_postings : Text → MemoryLedger → List Posting
unfolding lookup
entry_postings entry_id m = get_or (lookup entry_id m.by_entry) []

-- The loop of `balance`, over the net so far.
balance_from : Text → Text → ℤ → List Posting → ℤ
balance_from account asset n [] = n
balance_from account asset n (p ∷ ps) =
    balance_from account asset
      (if same p.account account && same p.asset asset then n +ℤ signed p else n) ps

pub balance : Text → Text → MemoryLedger → ℤ
unfolding balance_from
balance account asset m = balance_from account asset (pos 0) m.postings

abbrev pub account_nets : List Posting → List AccountNet
account_nets [] = []
account_nets (p ∷ ps) =
    record { account = p.account; asset = p.asset; amount = signed p } ∷ account_nets ps

unfoldable pub totals_by_type : MemoryLedger → Result TotalsByType
unfolding totals_of
totals_by_type m = totals_of (account_nets m.postings)

matching : Text → Text → List Posting → List Posting
matching account asset [] = []
matching account asset (p ∷ ps) =
    if same p.account account && same p.asset asset
    then p ∷ matching account asset ps
    else matching account asset ps

pub postings_for : Text → Text → MemoryLedger → List Posting
unfolding matching
postings_for account asset m = matching account asset m.postings

-- ===== src/Ledger/Service.antt =====
-- backend/src/services/ledger.service.ts, over any ledger store. An operation that throws leaves
-- the store as it was, so it returns a state only when it succeeds.
pub mod Lock
pub mod Reverse
use cixtech.Prelude.{ℕ, ℤ, ltb_ℤ, Text, codes, Bool, true, false, List, [], ◌∷◌, if◌then◌else◌}
use cixtech.Errors.{Result, ok, err, Error, ErrorCode, ◌>>=◌, ◌>>◌, throw_if}
use cixtech.Ledger.Types.{Posting, JournalEntry, PayoutLockedInput}
use cixtech.Ledger.Net.{flipped}
use cixtech.Ledger.Accounts.{normal_balance}
use cixtech.Ledger.Balanced.{assert_balanced}
use cixtech.Ledger.Flows.{payout_locked}
use cixtech.Ledger.Solvency.{AssetSolvency, solvency_drift}
use cixtech.Ledger.Store.{LedgerStore}

abbrev pub insufficient_funds : Error
insufficient_funds = Error.app ErrorCode.ledger_insufficient_funds

abbrev pub unknown_entry : Error
unknown_entry = Error.app ErrorCode.ledger_unknown_entry

abbrev pub no_postings : List Posting → Bool
no_postings [] = true
no_postings (_ ∷ _) = false

abbrev no_drift : List AssetSolvency → Bool
no_drift [] = true
no_drift (_ ∷ _) = false

module _ {S : Type 0} {IsSound : S → Type 0} (store : LedgerStore S IsSound) where
  unfoldable pub post : JournalEntry → S → Result (Bool × S)
  post entry s = do assert_balanced entry; store.append entry s

  unfoldable pub get_balance : Text → Text → S → ℤ
  get_balance account asset s = store.balance account asset s

  unfoldable pub available_balance : Text → Text → S → Result ℤ
  available_balance account asset s = normal_balance account (store.balance account asset s)

  -- The balance is read in one state and the entry posted in another: no transaction holds the two
  -- together.
  unfoldable pub lock_payout_seen : ℕ → PayoutLockedInput → S → S → Result (Bool × S)
  unfolding available_balance post
  lock_payout_seen now i seen s = do
    available ← available_balance i.merchant_available i.asset seen
    throw_if (ltb_ℤ available i.amount) insufficient_funds
    entry ← payout_locked now i
    post entry s

  -- A call that no other one comes between.
  unfoldable pub lock_payout : ℕ → PayoutLockedInput → S → Result (Bool × S)
  unfolding lock_payout_seen
  lock_payout now i s = lock_payout_seen now i s s

  unfoldable pub reverse_by_ref : Text → Text → Text → ℕ → S → Result (Bool × S)
  unfolding post
  reverse_by_ref original_id new_id new_key occurred_at s = do
    let original = store.entry_postings original_id s
    throw_if (no_postings original) unknown_entry
    post
        (record {
          id = new_id;
          idempotency_key = new_key;
          kind = codes "reverse";
          postings = flipped original;
          occurred_at = occurred_at;
        })
        s

  unfoldable pub check_solvency : List Text → S → Result (List AssetSolvency)
  check_solvency assets s = do totals ← store.totals_by_type s; ok (solvency_drift totals assets)

  unfoldable pub is_solvent : Text → S → Result Bool
  unfolding check_solvency
  is_solvent asset s = do drift ← check_solvency (asset ∷ []) s; ok (no_drift drift)

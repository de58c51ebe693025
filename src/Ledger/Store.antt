-- ===== src/Ledger/Store.antt =====
-- backend/src/ledger/ledger.port.ts: what the ledger service needs of a store, as operations on
-- the store's state with the laws that the two stores satisfy. An `append` that throws leaves the
-- state as it was.
use cixtech.Prelude.{ℤ, ◌+ℤ◌, Text, Bool, true, false, List, [], ◌∷◌, ◌≡◌, ◌≢◌, ℕ}
use cixtech.Prelude.Dict.{Dict}
use cixtech.Errors.{Result, ok}
use cixtech.Ledger.Types.{Posting, JournalEntry}
use cixtech.Ledger.Net.{net}
use cixtech.Ledger.Accounts.{AccountType}

-- `Map<AccountType, Map<string, bigint>>`; a type that is absent has no assets.
abbrev pub TotalsByType : Type 0
TotalsByType = AccountType → Dict ℤ

abbrev pub nul : ℕ
nul = 0

-- A text without the unit 0. PostgreSQL stores no other.
abbrev pub NoNul : Text → Type 0
NoNul [] = Unit {0}
NoNul (c ∷ s) = (c ≢ nul) × NoNul s

-- The assets of the postings can be stored as texts.
abbrev pub AreStorable : List Posting → Type 0
AreStorable [] = Unit {0}
AreStorable (p ∷ ps) = NoNul p.asset × AreStorable ps

pub record LedgerStore (S : Type 0) (IsSound : S → Type 0) : Type 0 where
  pub append : JournalEntry → S → Result (Bool × S)
  pub balance : Text → Text → S → ℤ
  pub entry_postings : Text → S → List Posting
  pub totals_by_type : S → Result TotalsByType
  -- An applied entry changes every balance by its net.
  pub balance_applied :
      (e : JournalEntry) (s s' : S)
      → AreStorable e.postings
      → append e s ≡ ok (true, s')
      → (k a : Text) → balance k a s' ≡ balance k a s +ℤ net k a e.postings
  -- It can be read back by its id.
  pub postings_applied :
      (e : JournalEntry) (s s' : S)
      → IsSound s
      → append e s ≡ ok (true, s')
      → entry_postings e.id s' ≡ e.postings
  pub append-IsSound :
      (e : JournalEntry) (b : Bool) (s s' : S)
      → AreStorable e.postings
      → IsSound s
      → append e s ≡ ok (b, s')
      → IsSound s'
  -- A duplicate changes nothing, and after an append every entry under that key is one.
  pub append_duplicate : (e : JournalEntry) (s s' : S) → append e s ≡ ok (false, s') → s' ≡ s
  pub append_again :
      (d e : JournalEntry) (b : Bool) (s s' : S)
      → append e s ≡ ok (b, s')
      → d.idempotency_key ≡ e.idempotency_key
      → append d s' ≡ ok (false, s')
  -- A key that is taken stays taken.
  pub append_known :
      (d e : JournalEntry) (b : Bool) (s s' : S)
      → append d s ≡ ok (false, s)
      → append e s ≡ ok (b, s')
      → append d s' ≡ ok (false, s')

-- ===== src/Ledger/Sql/Sound.antt =====
-- The tables agree with one another after any history of appends, so the drift query is empty;
-- and the SQL store is a ledger store.
use cixtech.Prelude.{
  ℤ, ◌+ℤ◌, Text, Bool, true, false, List, [], ◌∷◌, ◌≡◌, refl, ◌∙◌, arith, some, Bool-cases, inl,
  inr,
}
use cixtech.Errors.{ok}
use cixtech.Ledger.Types.{Posting, JournalEntry}
use cixtech.Ledger.Net.{net, net-append}
use cixtech.Ledger.Store.{LedgerStore, AreStorable}
use cixtech.Ledger.Sql.Rows.{UniqueRows, apply_deltas-UniqueRows}
use cixtech.Ledger.Sql.Deltas.{amount_at-append}
use cixtech.Ledger.Sql.{
  SqlLedger, BalanceRow, empty, posted, for_account_asset, append, balance, entry_postings,
  totals_by_type, drift_rows, reconcile_internal, same,
}
use cixtech.Ledger.Sql.Append.{
  AllReferenced, posted-append, for_entry_fresh, for_entry-append, AllReferenced-weaken,
  AllReferenced-append, conflicts_free, row_of, append-applied, append-not_applied, append-known,
}

pub record IsSound (db : SqlLedger) : Type 0 where
  -- Every balance is the sum of its postings.
  pub agrees : (k a : Text) → balance k a db ≡ net k a (posted db.posting)
  pub unique : UniqueRows db.balance
  pub referenced : AllReferenced db.journal_entry db.posting

pub empty-IsSound : IsSound empty
unfolding empty balance net
empty-IsSound = record { agrees = λ k a. refl; unique = tt; referenced = tt }

pub balance_applied :
    (e : JournalEntry) (db db' : SqlLedger)
    → AreStorable e.postings
    → append e db ≡ ok (true, db')
    → (k a : Text) → balance k a db' ≡ balance k a db +ℤ net k a e.postings
unfolding balance
balance_applied e db db' n h k a =
    rw ((append-applied e db db' h).1) (amount_at-append k a e.postings db.balance n)

pub postings_applied :
    (e : JournalEntry) (db db' : SqlLedger)
    → IsSound db
    → append e db ≡ ok (true, db')
    → entry_postings e.id db' ≡ e.postings
unfolding entry_postings
postings_applied e db db' v h =
    let (free, q) = append-applied e db db' h in
    let (no_id, _) = conflicts_free e.id e.idempotency_key db.journal_entry free in
    rw (
      q,
      for_entry-append e.id db.posting e.postings,
      for_entry_fresh e.id db.journal_entry db.posting v.referenced no_id,
    )

append-applied-IsSound :
    (e : JournalEntry) (db db' : SqlLedger)
    → AreStorable e.postings
    → IsSound db
    → append e db ≡ ok (true, db')
    → IsSound db'
append-applied-IsSound e db db' n v h =
    let (free, q) = append-applied e db db' h in
    record {
      agrees = λ k a.
          balance_applied e db db' n h k a
          ∙ (rw (
            v.agrees k a,
            q,
            posted-append db.posting e.id e.postings,
            net-append k a (posted db.posting) e.postings,
          ));
      unique = rw q (apply_deltas-UniqueRows _ db.balance v.unique);
      referenced = rw q (
          AllReferenced-append (row_of e ∷ db.journal_entry) e.id db.posting e.postings
            (ground arith)
            (AllReferenced-weaken (row_of e) db.journal_entry db.posting v.referenced));
    }

pub append-IsSound :
    (e : JournalEntry) (b : Bool) (db db' : SqlLedger)
    → AreStorable e.postings
    → IsSound db
    → append e db ≡ ok (b, db')
    → IsSound db'
append-IsSound e true db db' n v h = append-applied-IsSound e db db' n v h
append-IsSound e false db db' n v h = rw ((append-not_applied e db db' h).0) v

pub append_again :
    (d e : JournalEntry) (b : Bool) (db db' : SqlLedger)
    → append e db ≡ ok (b, db')
    → d.idempotency_key ≡ e.idempotency_key
    → append d db' ≡ ok (false, db')
append_again d e true db db' h k =
    append-known d db' e.id (rw ((append-applied e db db' h).1) (ground (arith, k)))
append_again d e false db db' h k =
    let (q, i, found) = append-not_applied e db db' h in append-known d db' i (rw (q, k) found)

pub append_known :
    (d e : JournalEntry) (b : Bool) (db db' : SqlLedger)
    → append d db ≡ ok (false, db)
    → append e db ≡ ok (b, db')
    → append d db' ≡ ok (false, db')
append_known d e true db db' known h =
    let (_, i, found) = append-not_applied d db db known in
    elim (Bool-cases (same e.idempotency_key d.idempotency_key)) [
      | inl hit ↦ append-known d db' e.id (rw ((append-applied e db db' h).1) (ground (arith, hit)))
      | inr miss ↦
          append-known d db' i (rw ((append-applied e db db' h).1) (ground (arith, miss, found)))
    ]
append_known d e false db db' known h = rw ((append-not_applied e db db' h).0) known

no_drift :
    (history : List Posting) (rows : List BalanceRow)
    → UniqueRows rows
    → ((k a : Text) (v : ℤ) → for_account_asset k a rows ≡ some v → v ≡ net k a history)
    → drift_rows history rows ≡ []
unfolding drift_rows
no_drift history [] u h = refl
no_drift history (r ∷ rows) u h = ground (
  arith,
  h r.account r.asset r.amount,
  no_drift history rows u.1 (λ k a v e. h k a v (ground (arith, u.0))),
)

-- On sound tables the internal reconciliation reports no drift.
pub reconcile_internal-IsSound : (db : SqlLedger) → IsSound db → reconcile_internal db ≡ []
unfolding reconcile_internal balance
reconcile_internal-IsSound db v =
    no_drift (posted db.posting) db.balance v.unique (λ k a n e. ground (arith, v.agrees k a))

unfoldable pub store : LedgerStore SqlLedger IsSound
store = record {
  append = append;
  balance = balance;
  entry_postings = entry_postings;
  totals_by_type = totals_by_type;
  balance_applied = balance_applied;
  postings_applied = postings_applied;
  append-IsSound = append-IsSound;
  append_duplicate = λ e db db' h. (append-not_applied e db db' h).0;
  append_again = append_again;
  append_known = append_known;
}

-- ===== src/Ledger/Sql/Append.antt =====
-- What an append does to the tables: the rows that it writes, and when it writes none.
use cixtech.Prelude.{
  Text, same, if◌then◌else◌, Bool, true, false, Bool-cases, Option-cases, inl, inr, List, [], ◌∷◌,
  ◌++◌, ◌≡◌, refl, arith, none, some,
}
use mathlib.Core.List.{append-nil, append_assoc}
use cixtech.Errors.{ok, Result-cases}
use cixtech.Ledger.Types.{Posting, JournalEntry}
use cixtech.Ledger.Sql.{
  SqlLedger, JournalRow, PostingRow, conflicts, id_by_key, insert_postings, posted, for_entry,
  append, netted_by_account, apply_deltas,
}

abbrev pub has_id : Text → List JournalRow → Bool
has_id id [] = false
has_id id (r ∷ rs) = if same r.id id then true else has_id id rs

-- `REFERENCES journal_entry(id)`
abbrev pub AllReferenced : List JournalRow → List PostingRow → Type 0
AllReferenced js [] = Unit {0}
AllReferenced js (r ∷ rows) = (has_id r.journal_entry_id js ≡ true) × AllReferenced js rows

abbrev pub rows_of : Text → List Posting → List PostingRow
rows_of id [] = []
rows_of id (p ∷ ps) = record { journal_entry_id = id; posting = p } ∷ rows_of id ps

insert_postings-ok :
    (id : Text) (ps : List Posting) (rows rows' : List PostingRow)
    → insert_postings id ps rows ≡ ok rows'
    → rows' ≡ rows ++ rows_of id ps
unfolding insert_postings
insert_postings-ok id [] rows rows' e = ground (arith, append-nil rows)
insert_postings-ok id (p ∷ ps) rows rows' e = ground (
  arith,
  insert_postings-ok id ps (rows ++ record { journal_entry_id = id; posting = p } ∷ []) rows',
  append_assoc rows (record { journal_entry_id = id; posting = p } ∷ []) (rows_of id ps),
)

pub posted-append :
    (rows : List PostingRow) (id : Text) (ps : List Posting)
    → posted (rows ++ rows_of id ps) ≡ posted rows ++ ps
posted-append [] id [] = refl
posted-append [] id (p ∷ ps) = cc (posted-append [] id ps)
posted-append (r ∷ rows) id ps = cc (posted-append rows id ps)

pub for_entry_fresh :
    (id : Text) (js : List JournalRow) (rows : List PostingRow)
    → AllReferenced js rows
    → has_id id js ≡ false
    → for_entry id rows ≡ []
for_entry_fresh id js [] h n = refl
for_entry_fresh id js (r ∷ rows) h n = ground (arith, for_entry_fresh id js rows h.1 n)

pub for_entry-append :
    (id : Text) (rows : List PostingRow) (ps : List Posting)
    → for_entry id (rows ++ rows_of id ps) ≡ for_entry id rows ++ ps
for_entry-append id [] [] = refl
for_entry-append id [] (p ∷ ps) = ground (arith, for_entry-append id [] ps)
for_entry-append id (r ∷ rows) ps = ground (arith, for_entry-append id rows ps)

pub AllReferenced-weaken :
    (j : JournalRow) (js : List JournalRow) (rows : List PostingRow)
    → AllReferenced js rows
    → AllReferenced (j ∷ js) rows
AllReferenced-weaken j js [] h = tt
AllReferenced-weaken j js (r ∷ rows) h = ground (arith, AllReferenced-weaken j js rows h.1)

pub AllReferenced-append :
    (js : List JournalRow) (id : Text) (rows : List PostingRow) (ps : List Posting)
    → has_id id js ≡ true
    → AllReferenced js rows
    → AllReferenced js (rows ++ rows_of id ps)
AllReferenced-append js id [] [] n h = tt
AllReferenced-append js id [] (p ∷ ps) n h = (n, AllReferenced-append js id [] ps n tt)
AllReferenced-append js id (r ∷ rows) ps n h = (h.0, AllReferenced-append js id rows ps n h.1)

pub conflicts_free :
    (id key : Text) (js : List JournalRow)
    → conflicts id key js ≡ false
    → (has_id id js ≡ false) × (id_by_key key js ≡ none)
conflicts_free id key [] h = (refl, refl)
conflicts_free id key (j ∷ js) h = ground (arith, conflicts_free id key js)

abbrev pub row_of : JournalEntry → JournalRow
row_of e = record {
  id = e.id;
  idempotency_key = e.idempotency_key;
  kind = e.kind;
  occurred_at = e.occurred_at;
}

abbrev pub after : JournalEntry → List PostingRow → SqlLedger → SqlLedger
after e rows db = record {
  journal_entry = row_of e ∷ db.journal_entry;
  posting = rows;
  balance = apply_deltas (netted_by_account [] e.postings) db.balance;
}

-- An append that applies has found no conflict, and writes the rows below.
pub append-applied :
    (e : JournalEntry) (db db' : SqlLedger)
    → append e db ≡ ok (true, db')
    → (conflicts e.id e.idempotency_key db.journal_entry ≡ false)
      × (db' ≡ after e (db.posting ++ rows_of e.id e.postings) db)
unfolding append
append-applied e db db' h = elim (Bool-cases (conflicts e.id e.idempotency_key db.journal_entry)) [
  | inl old ↦ elim (Option-cases (id_by_key e.idempotency_key db.journal_entry)) [
    | inl missing ↦ ground (arith, old, missing)
    | inr (i, found) ↦ ground (arith, old, found)
  ]
  | inr new ↦ elim (Result-cases (insert_postings e.id e.postings db.posting)) [
    | inl (rows, q) ↦ ground (arith, new, q, insert_postings-ok e.id e.postings db.posting rows q)
    | inr (x, q) ↦ ground (arith, new, q)
  ]
]

-- One that does not apply has found the key, and changes nothing.
pub append-not_applied :
    (e : JournalEntry) (db db' : SqlLedger)
    → append e db ≡ ok (false, db')
    → (db' ≡ db) × (i : Text) × (id_by_key e.idempotency_key db.journal_entry ≡ some i)
unfolding append
append-not_applied e db db' h =
    elim (Bool-cases (conflicts e.id e.idempotency_key db.journal_entry)) [
      | inl old ↦ elim (Option-cases (id_by_key e.idempotency_key db.journal_entry)) [
        | inl missing ↦ ground (arith, old, missing)
        | inr (i, found) ↦ (ground (arith, old, found), i, found)
      ]
      | inr new ↦ elim (Result-cases (insert_postings e.id e.postings db.posting)) [
        | inl (rows, q) ↦ ground (arith, new, q)
        | inr (x, q) ↦ ground (arith, new, q)
      ]
    ]

known_conflicts :
    (id key i : Text) (js : List JournalRow)
    → id_by_key key js ≡ some i
    → conflicts id key js ≡ true
known_conflicts id key i [] h = cc
known_conflicts id key i (j ∷ js) h = ground (arith, known_conflicts id key i js)

pub append-known :
    (d : JournalEntry) (db : SqlLedger) (i : Text)
    → id_by_key d.idempotency_key db.journal_entry ≡ some i
    → append d db ≡ ok (false, db)
unfolding append
append-known d db i h = rw (known_conflicts d.id d.idempotency_key i db.journal_entry h, h)

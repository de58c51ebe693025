-- ===== src/Ledger/Sql.antt =====
-- backend/src/stores/sql-ledger.store.ts over the tables of schemas/sql/ledger.schema.ts, with the
-- statements of queries/ledger.queries.ts. `append` runs in one transaction, so an error leaves
-- the tables as they were.
pub mod Rows
pub mod Deltas
pub mod Append
pub mod Sound
pub mod History
use cixtech.Prelude.{
  ℕ, ℤ, pos, ◌+ℤ◌, leb_ℤ, eqb_ℤ, Text, same, if◌then◌else◌, get_or, ◌&&◌, ◌||◌, ◌+◌, Bool, true,
  false, List, [], ◌∷◌, ◌++◌, Option, none, some,
}
use cixtech.Errors.{Result, ok, err, Error, ErrorCode, ◌>>=◌, throw_if, ◌>>◌}
use cixtech.Ledger.Types.{Posting, JournalEntry}
use cixtech.Ledger.Net.{signed, net}
use cixtech.Ledger.Store.{TotalsByType, nul}
use cixtech.Ledger.Totals.{AccountNet, totals_of}

pub record JournalRow : Type 0 where
  pub id : Text
  pub idempotency_key : Text
  pub kind : Text
  pub occurred_at : ℕ

pub record PostingRow : Type 0 where
  pub journal_entry_id : Text
  pub posting : Posting

pub record BalanceRow : Type 0 where
  pub account : Text
  pub asset : Text
  pub amount : ℤ
  pub version : ℕ

pub record SqlLedger : Type 0 where
  pub journal_entry : List JournalRow
  pub posting : List PostingRow
  pub balance : List BalanceRow

unfoldable pub empty : SqlLedger
empty = record { journal_entry = []; posting = []; balance = [] }

-- `ON CONFLICT DO NOTHING`: the id and the idempotency key are both unique.
abbrev pub conflicts : Text → Text → List JournalRow → Bool
conflicts id key [] = false
conflicts id key (r ∷ rs) =
    if same r.id id || same r.idempotency_key key then true else conflicts id key rs

-- `idByIdempotencyKey`
abbrev pub id_by_key : Text → List JournalRow → Option Text
id_by_key key [] = none
id_by_key key (r ∷ rs) = if same r.idempotency_key key then some r.id else id_by_key key rs

-- `posting.insert` for each posting, under `CHECK (amount > 0)`.
pub insert_postings : Text → List Posting → List PostingRow → Result (List PostingRow)
insert_postings id [] rows = ok rows
insert_postings id (p ∷ ps) rows = do
  throw_if (leb_ℤ p.amount (pos 0)) Error.constraint
  insert_postings id ps (rows ++ record { journal_entry_id = id; posting = p } ∷ [])

pub record Delta : Type 0 where
  pub account : Text
  pub asset : Text
  pub delta : ℤ

-- The key under which `nettedByAccount` collects an account's asset.
abbrev pub joined : Text → Text → Text
joined account asset = account ++ (nul ∷ asset)

pub add_delta : Posting → List (Text × Delta) → List (Text × Delta)
add_delta p [] =
    (joined p.account p.asset, record { account = p.account; asset = p.asset; delta = signed p })
    ∷ []
add_delta p ((key, cur) ∷ by) =
    if same key (joined p.account p.asset)
    then (key, record cur { delta = cur.delta +ℤ signed p }) ∷ by
    else (key, cur) ∷ add_delta p by

pub netted_by_account : List (Text × Delta) → List Posting → List (Text × Delta)
unfolding add_delta
netted_by_account by [] = by
netted_by_account by (p ∷ ps) = netted_by_account (add_delta p by) ps

-- `balance.applyDelta`: insert, or add to the row that is there.
pub apply_delta : Delta → List BalanceRow → List BalanceRow
apply_delta d [] =
    record { account = d.account; asset = d.asset; amount = d.delta; version = 1 } ∷ []
apply_delta d (r ∷ rows) =
    if same r.account d.account && same r.asset d.asset
    then record r { amount = r.amount +ℤ d.delta; version = r.version + 1 } ∷ rows
    else r ∷ apply_delta d rows

pub apply_deltas : List (Text × Delta) → List BalanceRow → List BalanceRow
unfolding apply_delta
apply_deltas [] rows = rows
apply_deltas ((_, d) ∷ ds) rows = apply_deltas ds (apply_delta d rows)

unfoldable pub append : JournalEntry → SqlLedger → Result (Bool × SqlLedger)
unfolding insert_postings netted_by_account add_delta apply_deltas apply_delta
append entry db =
    if conflicts entry.id entry.idempotency_key db.journal_entry
    then elim (id_by_key entry.idempotency_key db.journal_entry) [
      | none ↦ err (Error.app ErrorCode.ledger_duplicate_entry_id)
      | some _ ↦ ok (false, db)
    ]
    else insert_postings entry.id entry.postings db.posting >>= λ rows. ok (
      true,
      record {
        journal_entry =
            record {
              id = entry.id;
              idempotency_key = entry.idempotency_key;
              kind = entry.kind;
              occurred_at = entry.occurred_at;
            }
            ∷ db.journal_entry;
        posting = rows;
        balance = apply_deltas (netted_by_account [] entry.postings) db.balance;
      },
    )

-- `balance.forAccountAsset`
abbrev pub for_account_asset : Text → Text → List BalanceRow → Option ℤ
for_account_asset account asset [] = none
for_account_asset account asset (r ∷ rows) =
    if same r.account account && same r.asset asset
    then some r.amount
    else for_account_asset account asset rows

unfoldable pub balance : Text → Text → SqlLedger → ℤ
balance account asset db = get_or (for_account_asset account asset db.balance) (pos 0)

-- `posting.forEntry`
abbrev pub for_entry : Text → List PostingRow → List Posting
for_entry id [] = []
for_entry id (r ∷ rows) =
    if same r.journal_entry_id id then r.posting ∷ for_entry id rows else for_entry id rows

unfoldable pub entry_postings : Text → SqlLedger → List Posting
entry_postings entry_id db = for_entry entry_id db.posting

abbrev pub posted : List PostingRow → List Posting
posted [] = []
posted (r ∷ rows) = r.posting ∷ posted rows

-- `posting.forAccountAsset`
abbrev for_account : Text → Text → List Posting → List Posting
for_account account asset [] = []
for_account account asset (p ∷ ps) =
    if same p.account account && same p.asset asset
    then p ∷ for_account account asset ps
    else for_account account asset ps

pub postings_for : Text → Text → SqlLedger → List Posting
postings_for account asset db = for_account account asset (posted db.posting)

-- `posting.netByAccountAsset`: one row for each account and asset.
abbrev pub add_net : Posting → List AccountNet → List AccountNet
add_net p [] = record { account = p.account; asset = p.asset; amount = signed p } ∷ []
add_net p (r ∷ rs) =
    if same r.account p.account && same r.asset p.asset
    then record r { amount = r.amount +ℤ signed p } ∷ rs
    else r ∷ add_net p rs

unfoldable pub net_by_account_asset : List AccountNet → List Posting → List AccountNet
net_by_account_asset rs [] = rs
net_by_account_asset rs (p ∷ ps) = net_by_account_asset (add_net p rs) ps

unfoldable pub totals_by_type : SqlLedger → Result TotalsByType
unfolding net_by_account_asset totals_of
totals_by_type db = totals_of (net_by_account_asset [] (posted db.posting))

pub record DriftRow : Type 0 where
  pub account : Text
  pub asset : Text
  pub materialized : ℤ
  pub from_history : ℤ

-- `balance.driftAgainstPostings`: the rows that differ from the sum of their postings.
pub drift_rows : List Posting → List BalanceRow → List DriftRow
unfolding net
drift_rows history [] = []
drift_rows history (r ∷ rows) =
    let rest = drift_rows history rows in
    let from_history = net r.account r.asset history in
    if eqb_ℤ r.amount from_history
    then rest
    else record {
      account = r.account;
      asset = r.asset;
      materialized = r.amount;
      from_history = from_history;
    }
      ∷ rest

pub reconcile_internal : SqlLedger → List DriftRow
unfolding drift_rows
reconcile_internal db = drift_rows (posted db.posting) db.balance

-- ===== src/Payout/Journal.antt =====
-- `PayoutJournal` of backend/src/chains/payout/payout-journal.ts over the table payout_intent of
-- backend/src/schemas/sql/payout-journal.schema.ts, with `payoutIntent` of
-- backend/src/queries/payout.queries.ts. The primary key is the idempotency key, and `id` is
-- unique; the rows stand in the order of their insertion.
pub mod Rows
use cixtech.Prelude.{
  ℕ, zero, suc, ◌-◌, ℤ, ltb, leb, Text, same, if◌then◌else◌, ◌&&◌, ◌++◌, Bool, true, false, List,
  [], ◌∷◌, Option, none, some, map,
}
use cixtech.Errors.{Result, ok, err, Error, ◌>>=◌, or_throw}
use cixtech.Payout.Types.{
  PayoutIntentStatus, locked, broadcasting, broadcast, settled, failed, NewIntent,
}

-- `PayoutIntent`, with the two columns of its row that it leaves out.
pub record IntentRow : Type 0 where
  pub id : Text
  pub idempotency_key : Text
  pub tenant : Text
  pub merchant : Text
  pub chain : Text
  pub asset : Text
  pub amount_base_units : ℤ
  pub destination : Text
  pub from_address : Option Text
  pub tx_id : Option Text
  pub status : PayoutIntentStatus
  pub requested_by : Option Text
  pub last_error : Option Text
  pub created_at : ℕ
  pub updated_at : ℕ

-- The row that an insert makes: the columns left out have the defaults of the schema.
abbrev pub new_row : Text → ℕ → NewIntent → IntentRow
new_row id now i = record {
  id = id;
  idempotency_key = i.idempotency_key;
  tenant = i.tenant;
  merchant = i.merchant;
  chain = i.chain;
  asset = i.asset;
  amount_base_units = i.amount_base_units;
  destination = i.destination;
  from_address = none;
  tx_id = none;
  status = locked;
  requested_by = i.requested_by;
  last_error = none;
  created_at = now;
  updated_at = now;
}

-- `load`
unfoldable pub load : Text → List IntentRow → Option IntentRow
load key [] = none
load key (r ∷ rows) = if same r.idempotency_key key then some r else load key rows

-- `loadById`
unfoldable pub load_by_id : (tenant id : Text) → List IntentRow → Option IntentRow
load_by_id tenant id [] = none
load_by_id tenant id (r ∷ rows) =
    if same r.id id && same r.tenant tenant then some r else load_by_id tenant id rows

-- Some row has this id, whichever its tenant.
abbrev pub has_id : Text → List IntentRow → Bool
has_id id [] = false
has_id id (r ∷ rows) = if same r.id id then true else has_id id rows

-- `INSERT … ON CONFLICT (idempotency_key) DO NOTHING`; another row with the id is a violation.
unfoldable pub insert_intent : Text → ℕ → NewIntent → List IntentRow → Result (List IntentRow)
unfolding load
insert_intent id now i rows = elim (load i.idempotency_key rows) [
  | some _ ↦ ok rows
  | none ↦ if has_id id rows then err Error.constraint else ok (rows ++ new_row id now i ∷ [])
]

unfoldable pub begin : Text → ℕ → NewIntent → List IntentRow → Result (IntentRow × List IntentRow)
unfolding insert_intent load
begin id now i rows = do
  rows' ← insert_intent id now i rows
  row ← or_throw (load i.idempotency_key rows') Error.plain
  ok (row, rows')

-- `UPDATE payout_intent SET … WHERE idempotency_key = …`
abbrev pub at_key : Text → (IntentRow → IntentRow) → IntentRow → IntentRow
at_key key change r = if same r.idempotency_key key then change r else r

abbrev pub broadcasting_row : Text → ℕ → IntentRow → IntentRow
broadcasting_row from_address now r = record r {
  from_address = some from_address;
  status = broadcasting;
  updated_at = now;
}

abbrev pub broadcast_row : Text → ℕ → IntentRow → IntentRow
broadcast_row tx_id now r = record r { tx_id = some tx_id; status = broadcast; updated_at = now }

abbrev pub settled_row : ℕ → IntentRow → IntentRow
settled_row now r = record r { status = settled; updated_at = now }

-- `s.slice(0, n)`
abbrev pub take : ℕ → Text → Text
take zero s = []
take (suc n) [] = []
take (suc n) (c ∷ s) = c ∷ take n s

abbrev pub failed_row : Text → ℕ → IntentRow → IntentRow
failed_row reason now r = record r {
  status = failed;
  last_error = some (take 500 reason);
  updated_at = now;
}

unfoldable pub set_from : Text → Text → ℕ → List IntentRow → List IntentRow
set_from key from_address now rows = map (at_key key (broadcasting_row from_address now)) rows

unfoldable pub mark_broadcast : Text → Text → ℕ → List IntentRow → List IntentRow
mark_broadcast key tx_id now rows = map (at_key key (broadcast_row tx_id now)) rows

unfoldable pub mark_settled : Text → ℕ → List IntentRow → List IntentRow
mark_settled key now rows = map (at_key key (settled_row now)) rows

unfoldable pub mark_failed : Text → Text → ℕ → List IntentRow → List IntentRow
mark_failed key reason now rows = map (at_key key (failed_row reason now)) rows

-- `status in ("locked", "broadcasting", "broadcast")`
abbrev pub is_moving : PayoutIntentStatus → Bool
is_moving locked = true
is_moving broadcasting = true
is_moving broadcast = true
is_moving settled = false
is_moving failed = false

-- `ORDER BY updated_at`
unfoldable pub by_update : IntentRow → List IntentRow → List IntentRow
by_update r [] = r ∷ []
by_update r (q ∷ rows) =
    if leb r.updated_at q.updated_at then r ∷ q ∷ rows else q ∷ by_update r rows

-- `updated_at < now - olderThanMs`; an age above `now` is a date before 1970, which no row is.
unfoldable pub stuck : (older_than_ms now : ℕ) → List IntentRow → List IntentRow
unfolding by_update
stuck older_than_ms now [] = []
stuck older_than_ms now (r ∷ rows) =
    let rest = stuck older_than_ms now rows in
    if is_moving r.status && ltb r.updated_at (now - older_than_ms) then by_update r rest else rest

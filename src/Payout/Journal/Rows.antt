-- ===== src/Payout/Journal/Rows.antt =====
-- What a write to the journal leaves to be read.
use cixtech.Prelude.{Text, same, if◌then◌else◌, List, [], ◌∷◌, Option, none, some, map, ◌≡◌, arith}
use cixtech.Payout.Journal.{IntentRow, load, at_key}

-- What a change does to the row that is read.
abbrev pub changed : (IntentRow → IntentRow) → Option IntentRow → Option IntentRow
changed change none = none
changed change (some r) = some (change r)

-- A change that keeps the key of every row is seen at its key and nowhere else.
pub load-map :
    (key other : Text) (change : IntentRow → IntentRow) (rows : List IntentRow)
    → ((r : IntentRow) → (change r).idempotency_key ≡ r.idempotency_key)
    → load other (map (at_key key change) rows)
      ≡ (if same key other then changed change (load other rows) else load other rows)
unfolding load
load-map key other change [] keep = ground arith
load-map key other change (r ∷ rows) keep =
    ground (arith, keep r, load-map key other change rows keep)

pub load_key :
    (key : Text) (rows : List IntentRow) (r : IntentRow)
    → load key rows ≡ some r
    → r.idempotency_key ≡ key
unfolding load
load_key key [] r h = cc
load_key key (q ∷ rows) r h = ground (arith, load_key key rows r)

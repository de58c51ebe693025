-- ===== src/Webhooks/Examples.antt =====
-- The outbox on a concrete table.
use cixtech.Prelude.{
  ℕ, ◌+◌, ◌≤◌, Text, codes, Text-discrete, false, List, [], ◌∷◌, some, inr, ◌≡◌, refl, arith,
}
use cixtech.Webhooks.{
  Delivery, DeliveryStatus, Endpoints, WebhookPoster, claim_due, ids, backoff_at, dispatch_due, due,
}
use cixtech.Webhooks.Backoff.{backoff_at-bounds}
use cixtech.Webhooks.Claims.{Event, AllApart, history, AllOutside, claim_due-AllOutside}
use cixtech.Webhooks.Attempts.{AllBounded, dispatch_due-AllBounded}

abbrev pending : Text → ℕ → ℕ → Delivery
pending id attempts next_attempt = record {
  id = id;
  tenant_id = codes "t";
  body = codes "{}";
  status = DeliveryStatus.pending;
  attempts = attempts;
  next_attempt = next_attempt;
}

abbrev rows : List Delivery
rows = pending (codes "a") 7 20 ∷ pending (codes "b") 0 10 ∷ pending (codes "c") 0 90 ∷ []

abbrev endpoints : Endpoints
endpoints = (codes "t", record { url = codes "u"; secret = codes "s" }) ∷ []

-- The endpoint answers with an error.
abbrev poster : WebhookPoster
poster id attempt url body signature = some false

abbrev sign : (secret body : Text) → Text
sign secret body = codes "sig"

backoff_at-bounds_example :
    (100 + 5_000 ≤ backoff_at 100 3)
    × (backoff_at 100 3 ≤ backoff_at 100 8)
    × (backoff_at 100 8 ≤ 100 + 3_600_000)
backoff_at-bounds_example = backoff_at-bounds 100 3 8 (omega arith) (omega arith)

-- Another worker claims, and a delivery is added.
abbrev between : List Event
between = Event.claims 60 1 9 ∷ Event.enqueues (codes "z") (codes "t") (codes "{}") 70 ∷ []

between-AllApart : AllApart (ids (claim_due 50 2 60_000 rows).0) 60_050 between
unfolding claim_due due Text-discrete
between-AllApart = (omega arith, (refl, tt))

claim_due-AllOutside_example :
    AllOutside
      (ids (claim_due 50 2 60_000 rows).0)
      (claim_due 95 5 60_000 (history between (claim_due 50 2 60_000 rows).1)).0
claim_due-AllOutside_example =
    claim_due-AllOutside 50 2 60_000 95 5 60_000 between rows (omega arith) between-AllApart

rows-AllBounded : AllBounded rows
rows-AllBounded = (
  (omega arith, inr (omega arith)),
  ((omega arith, inr (omega arith)), ((omega arith, inr (omega arith)), tt)),
)

dispatch_due-AllBounded_example : AllBounded (dispatch_due poster sign 50 2 60_000 endpoints rows).1
dispatch_due-AllBounded_example =
    dispatch_due-AllBounded poster sign 50 2 60_000 endpoints rows rows-AllBounded

-- Two failures, the first of which is the last for its delivery.
failed_round : (dispatch_due poster sign 50 2 60_000 endpoints rows).0 ≡ (0, 2)
unfolding dispatch_due Text-discrete
failed_round = refl

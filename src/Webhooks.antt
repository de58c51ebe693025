-- ===== src/Webhooks.antt =====
-- backend/src/chains/webhooks.ts and backend/src/queries/webhook.queries.ts: the outbox of webhook
-- deliveries over the tables webhook_endpoint and webhook_delivery, and the dispatcher. The poster
-- and the signature are parameters: the first is an interface of the source and the second an HMAC
-- of node:crypto. The texts of errors are not modelled.
pub mod Backoff
pub mod Claims
pub mod Attempts
pub mod Count
pub mod Examples
use cixtech.Prelude.{
  ℕ, ◌+◌, ◌-◌, ◌*◌, ◌^◌, min, leb, Text, same, includes, if◌then◌else◌, ◌&&◌, Bool, true, false,
  List, [], ◌∷◌, ◌++◌, map, Option, none, some, suc, zero,
}
use cixtech.Prelude.Dict.{Dict, lookup, insert}

pub record WebhookEndpoint : Type 0 where
  pub url : Text
  pub secret : Text

-- `WebhookEndpointStore`, by tenant.
abbrev pub Endpoints : Type 0
Endpoints = Dict WebhookEndpoint

unfoldable pub set_endpoint : Text → Text → Text → Endpoints → Endpoints
unfolding insert
set_endpoint tenant_id url secret endpoints =
    insert tenant_id (record { url = url; secret = secret }) endpoints

pub data DeliveryStatus : Type 0 where
  pending delivered dead : DeliveryStatus

pub record Delivery : Type 0 where
  pub id : Text
  pub tenant_id : Text
  pub body : Text
  pub status : DeliveryStatus
  pub attempts : ℕ
  pub next_attempt : ℕ

abbrev pub is_pending : DeliveryStatus → Bool
is_pending DeliveryStatus.pending = true
is_pending _ = false

unfoldable pub enqueue : Text → Text → Text → ℕ → List Delivery → List Delivery
enqueue id tenant_id body now rows =
    rows
    ++ record {
      id = id;
      tenant_id = tenant_id;
      body = body;
      status = DeliveryStatus.pending;
      attempts = 0;
      next_attempt = now;
    }
      ∷ []

abbrev pub is_due : ℕ → Delivery → Bool
is_due now r = is_pending r.status && leb r.next_attempt now

-- `ORDER BY next_attempt`
abbrev pub place : Delivery → List Delivery → List Delivery
place r [] = r ∷ []
place r (q ∷ rows) = if leb r.next_attempt q.next_attempt then r ∷ q ∷ rows else q ∷ place r rows

unfoldable pub due : ℕ → List Delivery → List Delivery
due now [] = []
due now (r ∷ rows) = let rest = due now rows in if is_due now r then place r rest else rest

-- `LIMIT`
abbrev pub first : ℕ → List Delivery → List Delivery
first zero rows = []
first (suc n) [] = []
first (suc n) (r ∷ rows) = r ∷ first n rows

abbrev pub ids : List Delivery → List Text
ids [] = []
ids (r ∷ rows) = r.id ∷ ids rows

-- `extendLease`
abbrev pub leased : List Text → ℕ → Delivery → Delivery
leased claimed until r = if includes claimed r.id then record r { next_attempt = until } else r

-- The claimed deliveries, and the table after; one transaction.
unfoldable pub claim_due : ℕ → ℕ → ℕ → List Delivery → List Delivery × List Delivery
unfolding due
claim_due now limit lease_ms rows =
    let claimed = first limit (due now rows) in
    (claimed, map (leased (ids claimed) (now + lease_ms)) rows)

abbrev pub delivered_row : Text → Delivery → Delivery
delivered_row id r = if same r.id id then record r { status = DeliveryStatus.delivered } else r

unfoldable pub mark_delivered : Text → List Delivery → List Delivery
mark_delivered id rows = map (delivered_row id) rows

abbrev pub failed_row : Text → ℕ → ℕ → Bool → Delivery → Delivery
failed_row id attempts next_attempt is_dead r =
    if same r.id id
    then record r {
      attempts = attempts;
      next_attempt = next_attempt;
      status = if is_dead then DeliveryStatus.dead else DeliveryStatus.pending;
    }
    else r

unfoldable pub record_failure : Text → ℕ → ℕ → Bool → List Delivery → List Delivery
record_failure id attempts next_attempt is_dead rows =
    map (failed_row id attempts next_attempt is_dead) rows

abbrev pub max_attempts : ℕ
max_attempts = 8

abbrev pub backoff_base_ms : ℕ
backoff_base_ms = 5_000

abbrev pub backoff_max_ms : ℕ
backoff_max_ms = 3_600_000

-- For one attempt or more.
unfoldable pub backoff_at : ℕ → ℕ → ℕ
backoff_at now attempts = now + min (backoff_base_ms * 2 ^ (attempts - 1)) backoff_max_ms

-- What `post` does: throw, or return whether the response is ok. It may answer each attempt of each
-- delivery otherwise.
abbrev pub WebhookPoster : Type 0
WebhookPoster = (id : Text) → (attempt : ℕ) → (url body signature : Text) → Option Bool

module _ (poster : WebhookPoster) (sign_webhook : (secret body : Text) → Text) where
  abbrev pub accepted : WebhookEndpoint → Delivery → Bool
  accepted e row =
      elim (poster row.id row.attempts e.url row.body (sign_webhook e.secret row.body)) [
        | none ↦ false
        | some is_ok ↦ is_ok
      ]

  -- One delivery: whether it is delivered, and the table after.
  unfoldable pub dispatch : ℕ → Endpoints → Delivery → List Delivery → Bool × List Delivery
  unfolding lookup mark_delivered record_failure backoff_at
  dispatch now endpoints row rows = elim (lookup row.tenant_id endpoints) [
    | none ↦ (false, record_failure row.id (suc row.attempts) now true rows)
    | some e ↦ if accepted e row then (true, mark_delivered row.id rows) else (
      false,
      record_failure row.id (suc row.attempts) (backoff_at now (suc row.attempts))
          (leb max_attempts (suc row.attempts)) rows,
    )
  ]

  -- The loop: the numbers of deliveries delivered and failed, and the table after.
  unfoldable pub dispatch_all :
      ℕ → Endpoints → List Delivery → List Delivery → (ℕ × ℕ) × List Delivery
  unfolding dispatch
  dispatch_all now endpoints [] rows = ((0, 0), rows)
  dispatch_all now endpoints (row ∷ due_rows) rows =
      let one = dispatch now endpoints row rows in
      let rest = dispatch_all now endpoints due_rows one.1 in
      ((if one.0 then (suc rest.0.0, rest.0.1) else (rest.0.0, suc rest.0.1)), rest.1)

  unfoldable pub dispatch_due : ℕ → ℕ → ℕ → Endpoints → List Delivery → (ℕ × ℕ) × List Delivery
  unfolding claim_due dispatch_all
  dispatch_due now limit lease_ms endpoints rows =
      let claim = claim_due now limit lease_ms rows in dispatch_all now endpoints claim.0 claim.1

-- ===== src/Webhooks/Attempts.antt =====
-- No delivery is attempted more than eight times, and one that is still pending has attempts left.
use cixtech.Prelude.{
  ℕ, ◌+◌, ◌≤◌, ◌<◌, leb, Text, same, includes, Bool, true, false, Bool-cases, Option-cases, inl,
  inr, ◌⊎◌, List, [], ◌∷◌, map, suc, zero, ◌≡◌, refl, arith,
}
use cixtech.Prelude.Dict.{lookup}
use cixtech.Webhooks.{
  Delivery, Endpoints, WebhookPoster, is_pending, is_due, place, due, first, ids, leased, claim_due,
  delivered_row, failed_row, mark_delivered, record_failure, backoff_at, max_attempts, accepted,
  dispatch, dispatch_all, dispatch_due,
}

abbrev IsBounded : Delivery → Type 0
IsBounded r = (r.attempts ≤ 8) × ((is_pending r.status ≡ false) ⊎ (r.attempts < 8))

abbrev pub AllBounded : List Delivery → Type 0
AllBounded [] = Unit {0}
AllBounded (r ∷ rows) =
    ((r.attempts ≤ 8) × ((is_pending r.status ≡ false) ⊎ (r.attempts < 8))) × AllBounded rows

-- The claimed deliveries have attempts left.
abbrev AllOpen : List Delivery → Type 0
AllOpen [] = Unit {0}
AllOpen (r ∷ rows) = (r.attempts < 8) × AllOpen rows

map-AllBounded :
    (f : Delivery → Delivery) (rows : List Delivery)
    → ((r : Delivery) → IsBounded r → IsBounded (f r))
    → AllBounded rows
    → AllBounded (map f rows)
map-AllBounded f [] k h = tt
map-AllBounded f (r ∷ rows) k h = (k r h.0, map-AllBounded f rows k h.1)

place-AllOpen :
    (r : Delivery) (rows : List Delivery) → r.attempts < 8 → AllOpen rows → AllOpen (place r rows)
place-AllOpen r [] o h = (o, tt)
place-AllOpen r (q ∷ rows) o h = elim (Bool-cases (leb r.next_attempt q.next_attempt)) [
  | inl early ↦ rw early (o, h)
  | inr late ↦ rw late (h.0, place-AllOpen r rows o h.1)
]

due-AllOpen : (now : ℕ) (rows : List Delivery) → AllBounded rows → AllOpen (due now rows)
unfolding due
due-AllOpen now [] h = tt
due-AllOpen now (r ∷ rows) h = elim (Bool-cases (is_due now r)) [
  | inl ready ↦
      let left : r.attempts < 8 = ground (arith, h.0.1) in
      rw ready (place-AllOpen r _ left (due-AllOpen now rows h.1))
  | inr waits ↦ rw waits (due-AllOpen now rows h.1)
]

first-AllOpen : (n : ℕ) (rows : List Delivery) → AllOpen rows → AllOpen (first n rows)
first-AllOpen zero rows h = tt
first-AllOpen (suc n) [] h = tt
first-AllOpen (suc n) (r ∷ rows) h = (h.0, first-AllOpen n rows h.1)

leased-IsBounded :
    (claimed : List Text) (until : ℕ) (r : Delivery)
    → IsBounded r
    → IsBounded (leased claimed until r)
leased-IsBounded claimed until r h = elim (Bool-cases (includes claimed r.id)) [
  | inl mine ↦ rw mine h
  | inr other ↦ rw other h
]

delivered-IsBounded : (id : Text) (r : Delivery) → IsBounded r → IsBounded (delivered_row id r)
delivered-IsBounded id r h = elim (Bool-cases (same r.id id)) [
  | inl this ↦ rw this (h.0, inl refl)
  | inr other ↦ rw other h
]

failed-IsBounded :
    (id : Text) (attempts at : ℕ) (is_dead : Bool) (r : Delivery)
    → attempts ≤ 8
    → (is_dead ≡ true) ⊎ (attempts < 8)
    → IsBounded r
    → IsBounded (failed_row id attempts at is_dead r)
failed-IsBounded id attempts at is_dead r n d h = elim (Bool-cases (same r.id id)) [
  | inl this ↦ elim d [
    | inl gave_up ↦ rw (this, gave_up) (n, inl refl)
    | inr left ↦ rw this (n, inr left)
  ]
  | inr other ↦ rw other h
]

dispatch-AllBounded :
    (poster : WebhookPoster) (sign : (secret body : Text) → Text) (now : ℕ) (endpoints : Endpoints)
    (row : Delivery) (rows : List Delivery)
    → row.attempts < 8
    → AllBounded rows
    → AllBounded (dispatch poster sign now endpoints row rows).1
unfolding dispatch mark_delivered record_failure
dispatch-AllBounded poster sign now endpoints row rows o h =
    elim (Option-cases (lookup row.tenant_id endpoints)) [
      | inl nobody ↦
          let after : (dispatch poster sign now endpoints row rows).1
              ≡ map (failed_row row.id (suc row.attempts) now true) rows =
            rw (dispatch, nobody) in
          rw after (
            map-AllBounded (failed_row row.id (suc row.attempts) now true) rows
              (λ r b.
                failed-IsBounded row.id (suc row.attempts) now true r (omega arith) (inl refl) b)
              h)
      | inr (e, known) ↦ elim (Bool-cases (accepted poster sign e row)) [
        | inl fine ↦
            let after : (dispatch poster sign now endpoints row rows).1
                ≡ map (delivered_row row.id) rows =
              rw (dispatch, known, fine) in
            rw after
              (map-AllBounded (delivered_row row.id) rows (λ r b. delivered-IsBounded row.id r b) h)
        | inr wrong ↦
            let next = backoff_at now (suc row.attempts) in
            let gave_up = leb max_attempts (suc row.attempts) in
            let after : (dispatch poster sign now endpoints row rows).1
                ≡ map (failed_row row.id (suc row.attempts) next gave_up) rows =
              rw (dispatch, known, wrong) in
            rw after (
              map-AllBounded (failed_row row.id (suc row.attempts) next gave_up) rows
                (λ r b.
                  failed-IsBounded row.id (suc row.attempts) next gave_up r (omega arith)
                    (last_attempt (suc row.attempts)) b)
                h)
      ]
    ]
  where
    last_attempt : (n : ℕ) → (leb 8 n ≡ true) ⊎ (n < 8)
    last_attempt n = ground arith

dispatch_all-AllBounded :
    (poster : WebhookPoster) (sign : (secret body : Text) → Text) (now : ℕ) (endpoints : Endpoints)
    (due_rows rows : List Delivery)
    → AllOpen due_rows
    → AllBounded rows
    → AllBounded (dispatch_all poster sign now endpoints due_rows rows).1
unfolding dispatch_all
dispatch_all-AllBounded poster sign now endpoints [] rows o h = h
dispatch_all-AllBounded poster sign now endpoints (row ∷ due_rows) rows o h =
    dispatch_all-AllBounded poster sign now endpoints due_rows
      (dispatch poster sign now endpoints row rows).1 o.1
      (dispatch-AllBounded poster sign now endpoints row rows o.0 h)

-- When every delivery has had eight attempts at most, and fewer if it is pending, the same holds
-- after a round of the dispatcher, whatever the endpoints answer.
pub dispatch_due-AllBounded :
    (poster : WebhookPoster) (sign : (secret body : Text) → Text) (now limit lease_ms : ℕ)
    (endpoints : Endpoints) (rows : List Delivery)
    → AllBounded rows
    → AllBounded (dispatch_due poster sign now limit lease_ms endpoints rows).1
unfolding dispatch_due claim_due
dispatch_due-AllBounded poster sign now limit lease_ms endpoints rows h =
    let claimed = first limit (due now rows) in
    dispatch_all-AllBounded poster sign now endpoints claimed _
      (first-AllOpen limit (due now rows) (due-AllOpen now rows h))
      (map-AllBounded (leased (ids claimed) (now + lease_ms)) rows
        (λ r b. leased-IsBounded (ids claimed) (now + lease_ms) r b) h)

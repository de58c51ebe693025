-- ===== src/Webhooks/Claims.antt =====
-- A claimed delivery belongs to its worker until the lease ends.
use cixtech.Prelude.{
  same-true, same, Bool, true, refl, ◌≤◌, ◌⊎◌, ◌++◌, ℕ, ◌+◌, ◌<◌, leb, Text, includes, false,
  Bool-cases, inl, inr, List, [], ◌∷◌, map, suc, zero, ◌≡◌, arith,
}
use cixtech.Webhooks.{
  delivered_row, failed_row, mark_delivered, record_failure, enqueue, Delivery, is_pending, is_due,
  place, due, first, ids, leased, claim_due,
}

-- None of the deliveries has one of the ids.
abbrev pub AllOutside : List Text → List Delivery → Type 0
AllOutside claimed [] = Unit {0}
AllOutside claimed (r ∷ rows) = (includes claimed r.id ≡ false) × AllOutside claimed rows

place-AllOutside :
    (claimed : List Text) (r : Delivery) (rows : List Delivery)
    → includes claimed r.id ≡ false
    → AllOutside claimed rows
    → AllOutside claimed (place r rows)
place-AllOutside claimed r [] o h = (o, tt)
place-AllOutside claimed r (q ∷ rows) o h = elim (Bool-cases (leb r.next_attempt q.next_attempt)) [
  | inl early ↦ rw early (o, h)
  | inr late ↦ rw late (h.0, place-AllOutside claimed r rows o h.1)
]

first-AllOutside :
    (claimed : List Text) (n : ℕ) (rows : List Delivery)
    → AllOutside claimed rows
    → AllOutside claimed (first n rows)
first-AllOutside claimed zero rows h = tt
first-AllOutside claimed (suc n) [] h = tt
first-AllOutside claimed (suc n) (r ∷ rows) h = (h.0, first-AllOutside claimed n rows h.1)

-- A row that is none of the claimed, or not to be sent, or not before the time.
abbrev IsHeld : List Text → ℕ → Delivery → Type 0
IsHeld claimed until r =
    (includes claimed r.id ≡ false) ⊎ (is_pending r.status ≡ false) ⊎ (until ≤ r.next_attempt)

abbrev AllHeld : List Text → ℕ → List Delivery → Type 0
AllHeld claimed until [] = Unit {0}
AllHeld claimed until (r ∷ rows) = IsHeld claimed until r × AllHeld claimed until rows

AllHeld-map :
    (claimed : List Text) (until : ℕ) (f : Delivery → Delivery) (rows : List Delivery)
    → ((r : Delivery) → IsHeld claimed until r → IsHeld claimed until (f r))
    → AllHeld claimed until rows
    → AllHeld claimed until (map f rows)
AllHeld-map claimed until f [] keep h = tt
AllHeld-map claimed until f (r ∷ rows) keep h =
    (keep r h.0, AllHeld-map claimed until f rows keep h.1)

AllHeld-append :
    (claimed : List Text) (until : ℕ) (rows others : List Delivery)
    → AllHeld claimed until rows
    → AllHeld claimed until others
    → AllHeld claimed until (rows ++ others)
AllHeld-append claimed until [] others h k = k
AllHeld-append claimed until (r ∷ rows) others h k =
    (h.0, AllHeld-append claimed until rows others h.1 k)

leased-AllHeld :
    (claimed : List Text) (until : ℕ) (rows : List Delivery)
    → AllHeld claimed until (map (leased claimed until) rows)
leased-AllHeld claimed until [] = tt
leased-AllHeld claimed until (r ∷ rows) = elim (Bool-cases (includes claimed r.id)) [
  | inl mine ↦ (rw mine (inr (inr (omega arith))), leased-AllHeld claimed until rows)
  | inr other ↦ (rw other (inl other), leased-AllHeld claimed until rows)
]

due-AllOutside :
    (claimed : List Text) (until later : ℕ) (rows : List Delivery)
    → later < until
    → AllHeld claimed until rows
    → AllOutside claimed (due later rows)
unfolding due
due-AllOutside claimed until later [] h held = tt
due-AllOutside claimed until later (r ∷ rows) h held =
    let rest = due-AllOutside claimed until later rows h held.1 in
    elim (Bool-cases (is_due later r)) [
      | inr waits ↦ rw waits rest
      | inl ready ↦ elim held.0 [
        | inl other ↦ rw ready (place-AllOutside claimed r _ other rest)
        | inr (inl closed) ↦ absurd (ground (arith, ready, closed))
        | inr (inr late) ↦ absurd (ground (arith, ready, late, h))
      ]
    ]

AllOutside-ids :
    (claimed : List Text) (id : Text) (rows : List Delivery)
    → AllOutside claimed rows
    → includes (ids rows) id ≡ true
    → includes claimed id ≡ false
AllOutside-ids claimed id [] o h = absurd (cc)
AllOutside-ids claimed id (r ∷ rows) o h = elim (Bool-cases (same r.id id)) [
  | inl here ↦ let e : r.id ≡ id = same-true r.id id here in rw (← e) o.0
  | inr there ↦ AllOutside-ids claimed id rows o.1 (rw there at h)
]

-- What may happen to the table: other claims, deliveries that succeed, failures that are recorded
-- and new deliveries.
pub data Event : Type 0 where
  claims : (at limit lease_ms : ℕ) → Event
  delivers : Text → Event
  fails : Text → ℕ → ℕ → Bool → Event
  enqueues : (id tenant_id body : Text) → ℕ → Event

unfoldable pub happen : Event → List Delivery → List Delivery
unfolding claim_due mark_delivered record_failure enqueue
happen (Event.claims at limit lease_ms) rows = (claim_due at limit lease_ms rows).1
happen (Event.delivers id) rows = mark_delivered id rows
happen (Event.fails id attempts next_attempt is_dead) rows =
    record_failure id attempts next_attempt is_dead rows
happen (Event.enqueues id tenant_id body now) rows = enqueue id tenant_id body now rows

unfoldable pub history : List Event → List Delivery → List Delivery
unfolding happen
history [] rows = rows
history (e ∷ events) rows = history events (happen e rows)

-- A claim is made before the time; a failure or a new delivery is none of the claimed ones.
abbrev pub IsApart : List Text → ℕ → Event → Type 0
IsApart claimed until (Event.claims at limit lease_ms) = at < until
IsApart claimed until (Event.delivers id) = Unit {0}
IsApart claimed until (Event.fails id attempts next_attempt is_dead) = includes claimed id ≡ false
IsApart claimed until (Event.enqueues id tenant_id body now) = includes claimed id ≡ false

abbrev pub AllApart : List Text → ℕ → List Event → Type 0
AllApart claimed until [] = Unit {0}
AllApart claimed until (e ∷ events) = IsApart claimed until e × AllApart claimed until events

happen-AllHeld :
    (claimed : List Text) (until : ℕ) (e : Event) (rows : List Delivery)
    → IsApart claimed until e
    → AllHeld claimed until rows
    → AllHeld claimed until (happen e rows)
unfolding happen claim_due mark_delivered record_failure enqueue
happen-AllHeld claimed until (Event.claims at limit lease_ms) rows apart h =
    let others = first limit (due at rows) in
    let outside =
      first-AllOutside claimed limit (due at rows) (due-AllOutside claimed until at rows apart h) in
    AllHeld-map claimed until (leased (ids others) (at + lease_ms)) rows
      (λ r held. elim (Bool-cases (includes (ids others) r.id)) [
        | inl theirs ↦ rw theirs (inl (AllOutside-ids claimed r.id others outside theirs))
        | inr not_theirs ↦ rw not_theirs held
      ])
      h
happen-AllHeld claimed until (Event.delivers id) rows apart h =
    AllHeld-map claimed until (delivered_row id) rows
      (λ r held. elim (Bool-cases (same r.id id)) [
        | inl it ↦ rw it (inr (inl refl))
        | inr other ↦ rw other held
      ])
      h
happen-AllHeld claimed until (Event.fails id attempts next_attempt is_dead) rows apart h =
    AllHeld-map claimed until (failed_row id attempts next_attempt is_dead) rows
      (λ r held. elim (Bool-cases (same r.id id)) [
        | inl it ↦ let e : r.id ≡ id = same-true r.id id it in rw it (inl (rw e apart))
        | inr other ↦ rw other held
      ])
      h
happen-AllHeld claimed until (Event.enqueues id tenant_id body now) rows apart h =
    AllHeld-append claimed until rows _ h (inl apart, tt)

history-AllHeld :
    (claimed : List Text) (until : ℕ) (events : List Event) (rows : List Delivery)
    → AllApart claimed until events
    → AllHeld claimed until rows
    → AllHeld claimed until (history events rows)
unfolding history
history-AllHeld claimed until [] rows apart h = h
history-AllHeld claimed until (e ∷ events) rows apart h =
    history-AllHeld claimed until events (happen e rows) apart.1
      (happen-AllHeld claimed until e rows apart.0 h)

-- Until the lease of a claim ends, no claim hands out any of its deliveries, whatever other claims
-- before that end, deliveries that succeed, failures of other deliveries and new deliveries under
-- other ids come between. A failure of one of its own deliveries, which sets the time of the next
-- attempt anew, is not among what may come between.
pub claim_due-AllOutside :
    (now limit lease_ms later other_limit other_lease_ms : ℕ) (events : List Event)
    (rows : List Delivery)
    → later < now + lease_ms
    → AllApart (ids (claim_due now limit lease_ms rows).0) (now + lease_ms) events
    → let claim = claim_due now limit lease_ms rows in
      AllOutside
        (ids claim.0)
        (claim_due later other_limit other_lease_ms (history events claim.1)).0
unfolding claim_due
claim_due-AllOutside now limit lease_ms later other_limit other_lease_ms events rows h apart =
    let claimed = ids (first limit (due now rows)) in
    let until = now + lease_ms in
    let after = map (leased claimed until) rows in
    first-AllOutside claimed other_limit (due later (history events after)) (
      due-AllOutside claimed until later (history events after) h
        (history-AllHeld claimed until events after apart (leased-AllHeld claimed until rows)))

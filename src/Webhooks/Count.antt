-- ===== src/Webhooks/Count.antt =====
-- The numbers that a round of the dispatcher reports.
use cixtech.Prelude.{ℕ, ◌+◌, Text, Bool-cases, inl, inr, List, [], ◌∷◌, suc, ◌≡◌, refl, arith}
use cixtech.Webhooks.{
  Delivery, Endpoints, WebhookPoster, claim_due, dispatch, dispatch_all, dispatch_due,
}

abbrev pub size : List Delivery → ℕ
size [] = 0
size (_ ∷ rows) = suc (size rows)

dispatch_all-size :
    (poster : WebhookPoster) (sign : (secret body : Text) → Text) (now : ℕ) (endpoints : Endpoints)
    (due_rows rows : List Delivery)
    → let counts = (dispatch_all poster sign now endpoints due_rows rows).0 in
      counts.0 + counts.1 ≡ size due_rows
unfolding dispatch_all
dispatch_all-size poster sign now endpoints [] rows = refl
dispatch_all-size poster sign now endpoints (row ∷ due_rows) rows =
    let one = dispatch poster sign now endpoints row rows in
    let rest = dispatch_all-size poster sign now endpoints due_rows one.1 in
    elim (Bool-cases one.0) [
      | inl fine ↦ rw fine (omega arith)
      | inr wrong ↦ rw wrong (omega arith)
    ]

-- Every claimed delivery is reported once, as delivered or as failed: the two numbers that
-- `dispatchDue` returns add up to the size of the claim.
pub dispatch_due-size :
    (poster : WebhookPoster) (sign : (secret body : Text) → Text) (now limit lease_ms : ℕ)
    (endpoints : Endpoints) (rows : List Delivery)
    → let counts = (dispatch_due poster sign now limit lease_ms endpoints rows).0 in
      counts.0 + counts.1 ≡ size (claim_due now limit lease_ms rows).0
unfolding dispatch_due
dispatch_due-size poster sign now limit lease_ms endpoints rows =
    dispatch_all-size poster sign now endpoints (claim_due now limit lease_ms rows).0
      (claim_due now limit lease_ms rows).1

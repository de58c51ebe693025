-- ===== src/Payout/Postings.antt =====
-- What a payout posts to the ledger: `this.ledger.post(payoutSettled(…))` and
-- `this.ledger.post(feeSwept(…))` of backend/src/services/payout.service.ts.
use cixtech.Prelude.{ℕ, Bool}
use cixtech.Errors.{Result, ◌>>=◌}
use cixtech.Ledger.Types.{PayoutSettledInput, FeeSweptInput}
use cixtech.Ledger.Flows.{payout_settled, fee_swept}
use cixtech.Ledger.Store.{LedgerStore}
use cixtech.Ledger.Service.{post}

module _ {S : Type 0} {IsSound : S → Type 0} (store : LedgerStore S IsSound) where
  unfoldable pub post_settled : ℕ → PayoutSettledInput → S → Result (Bool × S)
  unfolding post payout_settled
  post_settled now i s = do entry ← payout_settled now i; post store entry s

  unfoldable pub post_swept : ℕ → FeeSweptInput → S → Result (Bool × S)
  unfolding post fee_swept
  post_swept now i s = do entry ← fee_swept now i; post store entry s

-- ===== src/Ledger/Flows.antt =====
-- backend/src/ledger/posting-flows.ts: the journal entries of deposits, payouts, fee sweeps and
-- reversals. `now` is the `new Date()` that an input without a time falls back to.
pub mod Fee
pub mod Keys
pub mod Correct
use cixtech.Prelude.{
  ℕ, ℤ, pos, ◌+ℤ◌, ◌-ℤ◌, ◌*ℤ◌, quot, leb_ℤ, ltb_ℤ, Text, codes, if◌then◌else◌, get_or, ◌||◌, List,
  [], ◌∷◌, ◌++◌, Option, none, some,
}
use cixtech.Errors.{Result, ok, err, Error, ErrorCode, ◌>>=◌, ◌>>◌, throw_if}
use cixtech.Ledger.Types.{
  Direction, Posting, JournalEntry, JsNumber, DepositFinalizedInput, PayoutLockedInput,
  NetworkFeeLeg, PayoutSettledInput, FeeSweptInput, DepositDetectedInput, DepositQuarantinedInput,
  DepositReleasedInput,
}
use cixtech.Ledger.Net.{flipped}
use cixtech.Ledger.Balanced.{assert_balanced}

abbrev pub invalid_posting : Error
invalid_posting = Error.app ErrorCode.ledger_invalid_posting

abbrev pub bps_denominator : ℕ
bps_denominator = 10_000

-- The test of `feeBasisPoints`.
abbrev whole_basis_points : JsNumber → Result ℤ
whole_basis_points (JsNumber.integer n) = do
  throw_if (ltb_ℤ n (pos 0) || leb_ℤ (pos 10_000) n) invalid_posting
  ok n
whole_basis_points JsNumber.not_integer = err invalid_posting

-- The fee, and what is left of the amount.
unfoldable pub split_fee : ℤ → JsNumber → Result (ℤ × ℤ)
split_fee amount fee_basis_points = do
  throw_if (leb_ℤ amount (pos 0)) invalid_posting
  bps ← whole_basis_points fee_basis_points
  let fee = quot (amount *ℤ bps) bps_denominator
  ok (fee, amount -ℤ fee)

abbrev pub debit_leg : Text → Text → ℤ → Posting
debit_leg account asset amount = record {
  account = account;
  asset = asset;
  amount = amount;
  direction = Direction.debit;
}

abbrev pub credit_leg : Text → Text → ℤ → Posting
credit_leg account asset amount = record {
  account = account;
  asset = asset;
  amount = amount;
  direction = Direction.credit;
}

-- `assertBalanced(entry); return entry;`
unfoldable pub checked : JournalEntry → Result JournalEntry
checked entry = do assert_balanced entry; ok entry

-- `if (fee > 0n) postings.push(…)`
abbrev pub fee_leg : Text → Text → ℤ → List Posting
fee_leg account asset fee = if ltb_ℤ (pos 0) fee then credit_leg account asset fee ∷ [] else []

abbrev pub deposit_finalized_entry : ℕ → DepositFinalizedInput → ℤ → ℤ → JournalEntry
deposit_finalized_entry now i fee net = record {
  id = i.id;
  idempotency_key = i.idempotency_key;
  kind = codes "deposit.finalized";
  postings =
      debit_leg i.pool_addr i.asset i.amount
      ∷ credit_leg i.merchant_available i.asset net
      ∷ fee_leg i.fee_revenue i.asset fee;
  occurred_at = get_or i.occurred_at now;
}

unfoldable pub deposit_finalized : ℕ → DepositFinalizedInput → Result JournalEntry
unfolding checked split_fee
deposit_finalized now i = do
  (fee, net) ← split_fee i.amount i.fee_basis_points
  checked (deposit_finalized_entry now i fee net)

abbrev pub payout_locked_entry : ℕ → PayoutLockedInput → JournalEntry
payout_locked_entry now i = record {
  id = i.id;
  idempotency_key = i.idempotency_key;
  kind = codes "payout.locked";
  postings =
      debit_leg i.merchant_available i.asset i.amount
      ∷ credit_leg i.merchant_pending_withdrawal i.asset i.amount
      ∷ [];
  occurred_at = get_or i.occurred_at now;
}

unfoldable pub payout_locked : ℕ → PayoutLockedInput → Result JournalEntry
unfolding checked
payout_locked now i = do
  throw_if (leb_ℤ i.amount (pos 0)) invalid_posting
  checked (payout_locked_entry now i)

unfoldable pub network_fee_postings : Option NetworkFeeLeg → List Posting
network_fee_postings none = []
network_fee_postings (some fee) =
    if leb_ℤ fee.amount (pos 0)
    then []
    else debit_leg fee.expense fee.asset fee.amount
      ∷ credit_leg fee.gas_float fee.asset fee.amount
      ∷ []

abbrev pub payout_settled_entry : ℕ → PayoutSettledInput → JournalEntry
payout_settled_entry now i = record {
  id = i.id;
  idempotency_key = i.idempotency_key;
  kind = codes "payout.settled";
  postings =
      debit_leg i.merchant_pending_withdrawal i.asset i.amount
      ∷ credit_leg i.pool_addr i.asset i.amount
      ∷ network_fee_postings i.network_fee;
  occurred_at = get_or i.occurred_at now;
}

unfoldable pub payout_settled : ℕ → PayoutSettledInput → Result JournalEntry
unfolding checked
payout_settled now i = do
  throw_if (leb_ℤ i.amount (pos 0)) invalid_posting
  checked (payout_settled_entry now i)

abbrev pub fee_swept_entry : ℕ → FeeSweptInput → JournalEntry
fee_swept_entry now i = record {
  id = i.id;
  idempotency_key = i.idempotency_key;
  kind = codes "fee.swept";
  postings =
      debit_leg i.treasury i.asset i.amount
      ∷ credit_leg i.pool_addr i.asset i.amount
      ∷ network_fee_postings i.network_fee;
  occurred_at = get_or i.occurred_at now;
}

unfoldable pub fee_swept : ℕ → FeeSweptInput → Result JournalEntry
unfolding checked
fee_swept now i = do
  throw_if (leb_ℤ i.amount (pos 0)) invalid_posting
  checked (fee_swept_entry now i)

abbrev pub deposit_detected_entry : ℕ → DepositDetectedInput → JournalEntry
deposit_detected_entry now i = record {
  id = i.id;
  idempotency_key = i.idempotency_key;
  kind = codes "deposit.detected";
  postings =
      debit_leg i.pool_addr_unconfirmed i.asset i.amount
      ∷ credit_leg i.merchant_pending i.asset i.amount
      ∷ [];
  occurred_at = get_or i.occurred_at now;
}

pub deposit_detected : ℕ → DepositDetectedInput → Result JournalEntry
unfolding checked
deposit_detected now i = do
  throw_if (leb_ℤ i.amount (pos 0)) invalid_posting
  checked (deposit_detected_entry now i)

abbrev pub deposit_quarantined_entry : ℕ → DepositQuarantinedInput → JournalEntry
deposit_quarantined_entry now i = record {
  id = i.id;
  idempotency_key = i.idempotency_key;
  kind = codes "deposit.quarantined";
  postings =
      debit_leg i.pool_addr i.asset i.amount
      ∷ credit_leg i.compliance_suspense i.asset i.amount
      ∷ [];
  occurred_at = get_or i.occurred_at now;
}

unfoldable pub deposit_quarantined : ℕ → DepositQuarantinedInput → Result JournalEntry
unfolding checked
deposit_quarantined now i = do
  throw_if (leb_ℤ i.amount (pos 0)) invalid_posting
  checked (deposit_quarantined_entry now i)

abbrev pub deposit_released_entry : ℕ → DepositReleasedInput → JournalEntry
deposit_released_entry now i = record {
  id = i.id;
  idempotency_key = i.idempotency_key;
  kind = codes "deposit.released";
  postings =
      debit_leg i.compliance_suspense i.asset (i.amount +ℤ i.fee)
      ∷ credit_leg i.merchant_available i.asset i.amount
      ∷ fee_leg i.fee_revenue i.asset i.fee;
  occurred_at = get_or i.occurred_at now;
}

pub deposit_released : ℕ → DepositReleasedInput → Result JournalEntry
unfolding checked
deposit_released now i = do
  throw_if (leb_ℤ i.amount (pos 0)) invalid_posting
  throw_if (ltb_ℤ i.fee (pos 0)) invalid_posting
  checked (deposit_released_entry now i)

pub reverse : JournalEntry → Text → Text → ℕ → Result JournalEntry
unfolding checked
reverse entry new_id new_key occurred_at = checked (record {
  id = new_id;
  idempotency_key = new_key;
  kind = codes "reverse:" ++ entry.kind;
  postings = flipped entry.postings;
  occurred_at = occurred_at;
})

-- ===== src/Ledger/Flows/Keys.antt =====
-- A flow keeps the idempotency key that it is given.
use cixtech.Prelude.{ℕ, ℤ, ◌≡◌, ap, sym}
use cixtech.Errors.{ok, throw_if, >>=-eq-ok}
use cixtech.Ledger.Types.{JournalEntry, DepositFinalizedInput, DepositQuarantinedInput}
use cixtech.Ledger.Balanced.{assert_balanced}
use cixtech.Ledger.Flows.{
  split_fee, checked, deposit_finalized_entry, deposit_finalized, deposit_quarantined_entry,
  deposit_quarantined, leb_ℤ, pos, invalid_posting,
}

checked_same : (e e' : JournalEntry) → checked e ≡ ok e' → e ≡ e'
unfolding checked
checked_same e e' h =
    let (_, _, same_entry) = >>=-eq-ok (assert_balanced e) (λ _. ok e) h in let s : e ≡ e' = cc in s

pub deposit_finalized-key :
    (now : ℕ) (i : DepositFinalizedInput) (e : JournalEntry)
    → deposit_finalized now i ≡ ok e
    → e.idempotency_key ≡ i.idempotency_key
unfolding deposit_finalized
deposit_finalized-key now i e h =
    let (x, _, built) =
      >>=-eq-ok (split_fee i.amount i.fee_basis_points)
        (λ (x : ℤ × ℤ). checked (deposit_finalized_entry now i x.0 x.1)) h in
    sym (ap JournalEntry.idempotency_key (checked_same _ e built))

pub deposit_quarantined-key :
    (now : ℕ) (i : DepositQuarantinedInput) (e : JournalEntry)
    → deposit_quarantined now i ≡ ok e
    → e.idempotency_key ≡ i.idempotency_key
unfolding deposit_quarantined
deposit_quarantined-key now i e h =
    let (_, _, built) =
      >>=-eq-ok (throw_if (leb_ℤ i.amount (pos 0)) invalid_posting)
        (λ _. checked (deposit_quarantined_entry now i)) h in
    sym (ap JournalEntry.idempotency_key (checked_same _ e built))

-- ===== src/Ledger/Examples.antt =====
-- The ledger on concrete entries.
use cixtech.Prelude.{
  int_laws, ℕ, ℤ, pos, ◌+ℤ◌, ◌-ℤ◌, neg, ◌≤ℤ◌, Text, codes, Text-discrete, true, false, ap,
  starts_with, [], ◌∷◌, none, ◌≡◌, ◌↔◌, refl, arith, ◌*◌, ◌+◌, ◌≤◌, ◌<◌,
}
use cixtech.Errors.{ok, err, Error, ErrorCode}
use cixtech.Ledger.Types.{flip, Direction, Posting, JournalEntry, JsNumber, PayoutLockedInput}
use cixtech.Ledger.Store.{NoNul, TotalsByType}
use cixtech.Ledger.Accounts.{account_type_of, normal_balance}
use cixtech.Ledger.Balanced.{assert_balanced}
use cixtech.Ledger.Balanced.Correct.{IsBalanced, assert_balanced_iff}
use cixtech.Ledger.Flows.{split_fee, payout_locked, invalid_posting}
use cixtech.Ledger.Flows.Fee.{split_fee_lem}
use cixtech.Ledger.Flows.Correct.{Flow, run_flow, run_flow-IsBuilt, run_flow_refuses}
use cixtech.Ledger.Service.{
  post, lock_payout, lock_payout_seen, reverse_by_ref, insufficient_funds, available_balance,
}
use cixtech.Ledger.Service.Lock.{IsLockInput, lock_payout-applied, lock_payout_retry}
use cixtech.Ledger.Service.Reverse.{reverse_by_ref-restores}
use cixtech.Ledger.Sql.{
  SqlLedger, empty, append, balance, entry_postings, reconcile_internal, totals_by_type,
}
use cixtech.Ledger.Sql.Sound.{store, empty-IsSound}
use cixtech.Ledger.Sql.History.{
  post_all, AllStorable, reconcile_internal-post_all, imbalance-post_all,
}
use cixtech.Ledger.Totals.Equation.{imbalance}

abbrev available : Text
available = codes "merchant_available:t:m"

abbrev pending : Text
pending = codes "merchant_pending_withdrawal:t:m"

abbrev pool : Text
pool = codes "pool_addr:TRON:m"

abbrev usdt : Text
usdt = codes "USDT"

abbrev leg : Text → ℤ → Direction → Posting
leg k n d = record { account = k; asset = usdt; amount = n; direction = d }

-- A deposit of 100, fee 1.
abbrev deposit : JournalEntry
deposit = record {
  id = codes "d1";
  idempotency_key = codes "k1";
  kind = codes "deposit.finalized";
  postings =
      leg pool (pos 100) Direction.debit
      ∷ leg available (pos 99) Direction.credit
      ∷ leg (codes "egofi_fee_revenue:t") (pos 1) Direction.credit
      ∷ [];
  occurred_at = 5;
}

abbrev lopsided : JournalEntry
lopsided = record deposit { postings = leg pool (pos 100) Direction.debit ∷ [] }

symbol : NoNul usdt
symbol = ground arith

symbols : AllStorable (deposit ∷ lopsided ∷ deposit ∷ [])
symbols = ((symbol, (symbol, (symbol, tt))), ((symbol, tt), ((symbol, (symbol, (symbol, tt))), tt)))

reconcile_internal-post_all_example :
    reconcile_internal (post_all (deposit ∷ lopsided ∷ deposit ∷ []) empty) ≡ []
reconcile_internal-post_all_example =
    reconcile_internal-post_all (deposit ∷ lopsided ∷ deposit ∷ []) symbols

reported :
    (t : TotalsByType) × (totals_by_type (post_all (deposit ∷ lopsided ∷ deposit ∷ []) empty)
      ≡ ok t)
unfolding totals_by_type post_all post store append empty assert_balanced account_type_of
    Text-discrete ◌+ℤ◌ neg
reported = (_, refl)

imbalance-post_all_example : imbalance reported.0 usdt ≡ pos 0
imbalance-post_all_example =
    imbalance-post_all (deposit ∷ lopsided ∷ deposit ∷ []) reported.0 usdt symbols reported.1

assert_balanced_iff_example : (assert_balanced deposit ≡ ok tt) ↔ IsBalanced deposit.postings
assert_balanced_iff_example = assert_balanced_iff deposit

lopsided_refused : assert_balanced lopsided ≡ err (Error.app ErrorCode.ledger_unbalanced_entry)
unfolding assert_balanced Text-discrete ◌+ℤ◌ neg
lopsided_refused = refl

abbrev payout : PayoutLockedInput
payout = record {
  id = codes "p1";
  idempotency_key = codes "k2";
  asset = usdt;
  amount = pos 60;
  merchant_available = available;
  merchant_pending_withdrawal = pending;
  occurred_at = none;
}

run_flow-IsBuilt_example :
    (e : JournalEntry) × (run_flow 7 (Flow.locked payout) ≡ ok e) × IsBalanced e.postings
run_flow-IsBuilt_example = run_flow-IsBuilt 7 (Flow.locked payout) (omega arith)

abbrev nothing_paid : PayoutLockedInput
nothing_paid = record payout { amount = pos 0 }

run_flow_refuses_example : run_flow 7 (Flow.locked nothing_paid) ≡ err invalid_posting
run_flow_refuses_example = run_flow_refuses 7 (Flow.locked nothing_paid) (λ h. omega arith)

split_fee_lem_example :
    (fee net : ℕ) × (split_fee (pos 1001) (JsNumber.integer (pos 25)) ≡ ok (pos fee, pos net))
    × (fee + net ≡ 1001)
    × (0 < net)
    × (fee * 10_000 ≤ 1001 * 25)
    × (1001 * 25 < fee * 10_000 + 10_000)
split_fee_lem_example = split_fee_lem 1001 25 (omega arith) (omega arith)

payout-IsLockInput : IsLockInput payout
unfolding account_type_of Text-discrete
payout-IsLockInput = record {
  available_type = refl;
  pending_type = refl;
  distinct =
      λ e. let h : true ≡ false = ap (λ (k : Text). starts_with k (codes "merchant_a")) e in cc;
  symbol = symbol;
}

abbrev funded : SqlLedger
funded = post_all (deposit ∷ []) empty

funded-available : available_balance store available usdt funded ≡ ok (pos 99)
unfolding available_balance normal_balance balance post_all post store append empty assert_balanced
    account_type_of Text-discrete ◌+ℤ◌ neg
funded-available = refl

funded-pending : available_balance store pending usdt funded ≡ ok (pos 0)
unfolding available_balance normal_balance balance post_all post store append empty assert_balanced
    account_type_of Text-discrete ◌+ℤ◌ neg
funded-pending = refl

locked : (db : SqlLedger) × (lock_payout store 9 payout funded ≡ ok (true, db))
unfolding lock_payout lock_payout_seen payout_locked normal_balance balance post_all post store
    append empty assert_balanced account_type_of Text-discrete ◌+ℤ◌ neg
locked = (_, refl)

lock_payout-applied_example :
    (pos 60 ≤ℤ pos 99)
    × (available_balance store available usdt locked.0 ≡ ok (pos 99 -ℤ pos 60))
    × (available_balance store pending usdt locked.0 ≡ ok (pos 0 +ℤ pos 60))
lock_payout-applied_example =
    lock_payout-applied store 9 payout funded locked.0 (pos 99) (pos 0) payout-IsLockInput
      funded-available funded-pending locked.1

lock_payout_retry_example : lock_payout store 12 payout locked.0 ≡ err insufficient_funds
lock_payout_retry_example =
    lock_payout_retry store 9 12 payout funded locked.0 (pos 99) payout-IsLockInput funded-available
      locked.1 (grind int_laws)

-- Another payout of 60 that read the 99 before the first was posted: 21 more than there is.
raced :
    (db : SqlLedger) × (lock_payout_seen store 10
        (record payout { id = codes "p2"; idempotency_key = codes "k9" })
        funded
        locked.0
      ≡ ok (true, db))
    × (available_balance store available usdt db ≡ ok (neg (pos 21)))
unfolding locked lock_payout lock_payout_seen available_balance payout_locked normal_balance balance
    post_all post store append empty assert_balanced account_type_of Text-discrete ◌+ℤ◌ neg
raced = (_, refl, refl)

deposited : (db : SqlLedger) × (post store deposit empty ≡ ok (true, db))
unfolding post store append empty assert_balanced Text-discrete ◌+ℤ◌ neg
deposited = (_, refl)

reversed :
    (db : SqlLedger) × (reverse_by_ref store (codes "d1") (codes "r1") (codes "k3") 11 deposited.0
      ≡ ok (true, db))
unfolding reverse_by_ref flip deposited entry_postings post store append empty assert_balanced
    Text-discrete ◌+ℤ◌ neg
reversed = (_, refl)

reverse_by_ref-restores_example :
    store.balance available usdt reversed.0 ≡ store.balance available usdt empty
reverse_by_ref-restores_example =
    reverse_by_ref-restores store deposit (codes "r1") (codes "k3") 11 empty deposited.0 reversed.0
      empty-IsSound (symbol, (symbol, (symbol, tt))) deposited.1 reversed.1 available usdt

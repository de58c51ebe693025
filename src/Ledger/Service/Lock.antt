-- ===== src/Ledger/Service/Lock.antt =====
-- Locking funds for a payout.
use cixtech.Prelude.{
  ap, ℕ, ℤ, pos, neg, ◌+ℤ◌, ◌-ℤ◌, ltb_ℤ, leb_ℤ, ◌≤ℤ◌, ◌<ℤ◌, int_laws, Text, if◌then◌else◌, Bool,
  true, Bool-cases, inl, inr, ◌≡◌, ◌≢◌, arith,
}
use cixtech.Errors.{ok, err}
use cixtech.Ledger.Types.{PayoutLockedInput}
use cixtech.Ledger.Net.{net}
use cixtech.Ledger.Accounts.{AccountType, account_type_of, normal_balance}
use cixtech.Ledger.Flows.{payout_locked_entry, invalid_posting}
use cixtech.Ledger.Flows.Correct.{payout_locked_lem, payout_locked_refuses, payout_locked_accepted}
use cixtech.Ledger.Store.{LedgerStore, NoNul}
use cixtech.Ledger.Service.{available_balance, lock_payout, lock_payout_seen, insufficient_funds}

-- What a payout may be locked from and to: two liability accounts, and an asset that can be stored.
pub record IsLockInput (i : PayoutLockedInput) : Type 0 where
  pub available_type : account_type_of i.merchant_available ≡ ok AccountType.liability
  pub pending_type : account_type_of i.merchant_pending_withdrawal ≡ ok AccountType.liability
  pub distinct : i.merchant_available ≢ i.merchant_pending_withdrawal
  pub symbol : NoNul i.asset

normal_balance_liability :
    (k : Text) (n : ℤ)
    → account_type_of k ≡ ok AccountType.liability
    → normal_balance k n ≡ ok (neg n)
unfolding normal_balance
normal_balance_liability k n h = rw h

-- The entry moves the amount from the available to the pending account.
net_locked :
    (now : ℕ) (i : PayoutLockedInput)
    → i.merchant_available ≢ i.merchant_pending_withdrawal
    → let ps = (payout_locked_entry now i).postings in
      (net i.merchant_available i.asset ps ≡ i.amount)
      × (net i.merchant_pending_withdrawal i.asset ps ≡ neg i.amount)
unfolding net
net_locked now i h = (grind int_laws, grind int_laws)

module _ {S : Type 0} {IsSound : S → Type 0} (store : LedgerStore S IsSound) where
  -- Every branch of a lock.
  lock_payout_branches :
      (now : ℕ) (i : PayoutLockedInput) (s : S)
      → IsLockInput i
      → lock_payout store now i s ≡ (
          if ltb_ℤ (neg (store.balance i.merchant_available i.asset s)) i.amount
          then err insufficient_funds
          else if leb_ℤ i.amount (pos 0)
          then err invalid_posting
          else store.append (payout_locked_entry now i) s)
  unfolding lock_payout lock_payout_seen
  lock_payout_branches now i s v =
      let funds = store.balance i.merchant_available i.asset s in
      rw (normal_balance_liability i.merchant_available funds v.available_type)
        (elim (Bool-cases (leb_ℤ i.amount (pos 0))) [
          | inl bad ↦ rw (bad, payout_locked_refuses now i (ground arith)) (ground arith)
          | inr good ↦
              rw
                (
                  good,
                  payout_locked_lem now i (ground arith),
                  payout_locked_accepted now i (ground arith),
                )
                (ground arith)
        ])

  -- A lock that returns has found the amount available, and has appended its entry.
  lock_payout-ok :
      (now : ℕ) (i : PayoutLockedInput) (b : Bool) (s s' : S)
      → IsLockInput i
      → lock_payout store now i s ≡ ok (b, s')
      → (pos 0 <ℤ i.amount)
        × (i.amount ≤ℤ neg (store.balance i.merchant_available i.asset s))
        × (store.append (payout_locked_entry now i) s ≡ ok (b, s'))
  lock_payout-ok now i b s s' v h =
      let e = lock_payout_branches now i s v in (ground arith, ground arith, ground arith)

  available_liability :
      (k a : Text) (s : S) (n : ℤ)
      → account_type_of k ≡ ok AccountType.liability
      → available_balance store k a s ≡ ok n
      → store.balance k a s ≡ neg n
  unfolding available_balance
  available_liability k a s n t h =
      let e = normal_balance_liability k (store.balance k a s) t in
      let same_value : neg (store.balance k a s) ≡ n = ground (arith, e) in
      rw (← same_value) (omega int_laws)

  -- Between two different liability accounts, in an asset that can be stored, a lock that applies
  -- has found the amount available. It takes it from the available balance and adds it to the
  -- pending one.
  pub lock_payout-applied :
      (now : ℕ) (i : PayoutLockedInput) (s s' : S) (available pending : ℤ)
      → IsLockInput i
      → available_balance store i.merchant_available i.asset s ≡ ok available
      → available_balance store i.merchant_pending_withdrawal i.asset s ≡ ok pending
      → lock_payout store now i s ≡ ok (true, s')
      → (i.amount ≤ℤ available)
        × (available_balance store i.merchant_available i.asset s' ≡ ok (available -ℤ i.amount))
        × (available_balance store i.merchant_pending_withdrawal i.asset s'
            ≡ ok (pending +ℤ i.amount))
  unfolding available_balance
  lock_payout-applied now i s s' available pending v ha hp h =
      let (_, enough, q) = lock_payout-ok now i true s s' v h in
      let (from, to) = net_locked now i v.distinct in
      let applied =
        store.balance_applied (payout_locked_entry now i) s s' (v.symbol, (v.symbol, tt)) q in
      let ea = available_liability i.merchant_available i.asset s available v.available_type ha in
      let ep =
        available_liability i.merchant_pending_withdrawal i.asset s pending v.pending_type hp in
      (
        grind int_laws,
        rw
            (
              normal_balance_liability i.merchant_available _ v.available_type,
              applied i.merchant_available i.asset,
              from,
              ea,
            )
            (ap ok (omega int_laws)),
        rw
            (
              normal_balance_liability i.merchant_pending_withdrawal _ v.pending_type,
              applied i.merchant_pending_withdrawal i.asset,
              to,
              ep,
            )
            (ap ok (omega int_laws)),
      )

  -- Between two different liability accounts, in an asset that can be stored, a lock that was
  -- applied cannot be asked for again once less than its amount is left: the repeated call throws
  -- for insufficient funds before it looks at the idempotency key.
  pub lock_payout_retry :
      (now later : ℕ) (i : PayoutLockedInput) (s s' : S) (available : ℤ)
      → IsLockInput i
      → available_balance store i.merchant_available i.asset s ≡ ok available
      → lock_payout store now i s ≡ ok (true, s')
      → available <ℤ i.amount +ℤ i.amount
      → lock_payout store later i s' ≡ err insufficient_funds
  unfolding available_balance
  lock_payout_retry now later i s s' available v ha h short =
      let (_, _, q) = lock_payout-ok now i true s s' v h in
      let (from, _) = net_locked now i v.distinct in
      let applied =
        store.balance_applied (payout_locked_entry now i) s s' (v.symbol, (v.symbol, tt)) q
          i.merchant_available i.asset in
      let ea = available_liability i.merchant_available i.asset s available v.available_type ha in
      rw (lock_payout_branches later i s' v, applied, from, ea) (grind int_laws)

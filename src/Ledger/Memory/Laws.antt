-- ===== src/Ledger/Memory/Laws.antt =====
-- The in-memory store is a ledger store.
use cixtech.Prelude.{
  ℤ, pos, ◌+ℤ◌, int_laws, Text, same, if◌then◌else◌, ◌&&◌, Bool, true, false, List, [], ◌∷◌, ◌≡◌,
  arith, Bool-cases, inl, inr,
}
use cixtech.Prelude.Dict.{lookup-insert}
use cixtech.Errors.{ok}
use cixtech.Ledger.Types.{Posting, JournalEntry}
use cixtech.Ledger.Net.{signed, net, net-append}
use cixtech.Ledger.Store.{LedgerStore, AreStorable}
use cixtech.Ledger.Memory.{
  MemoryLedger, append, entry_postings, balance, balance_from, totals_by_type, includes,
}

-- The running sum of `balance` is the net.
balance_from-eq-net :
    (k a : Text) (n : ℤ) (ps : List Posting) → balance_from k a n ps ≡ n +ℤ net k a ps
unfolding balance_from net
balance_from-eq-net k a n [] = omega int_laws
balance_from-eq-net k a n (p ∷ ps) = grind (
  int_laws,
  balance_from-eq-net k a (if same p.account k && same p.asset a then n +ℤ signed p else n) ps,
)

balance-eq-net : (k a : Text) (m : MemoryLedger) → balance k a m ≡ net k a m.postings
unfolding balance
balance-eq-net k a m = rw (balance_from-eq-net k a (pos 0) m.postings) (omega int_laws)

balance_applied :
    (e : JournalEntry) (m m' : MemoryLedger)
    → AreStorable e.postings
    → append e m ≡ ok (true, m')
    → (k a : Text) → balance k a m' ≡ balance k a m +ℤ net k a e.postings
unfolding append
balance_applied e m m' n h k a =
    rw (balance-eq-net k a m', balance-eq-net k a m)
      (ground (arith, net-append k a m.postings e.postings))

abbrev Anything : MemoryLedger → Type 0
Anything m = Unit {0}

postings_applied :
    (e : JournalEntry) (m m' : MemoryLedger)
    → Anything m
    → append e m ≡ ok (true, m')
    → entry_postings e.id m' ≡ e.postings
unfolding append entry_postings
postings_applied e m m' v h = ground (arith, lookup-insert e.id e.id e.postings m.by_entry)

append_duplicate : (e : JournalEntry) (m m' : MemoryLedger) → append e m ≡ ok (false, m') → m' ≡ m
unfolding append
append_duplicate e m m' h = ground arith

append_again :
    (d e : JournalEntry) (b : Bool) (m m' : MemoryLedger)
    → append e m ≡ ok (b, m')
    → d.idempotency_key ≡ e.idempotency_key
    → append d m' ≡ ok (false, m')
unfolding append
append_again d e b m m' h k = rw k (ground arith)

append_known :
    (d e : JournalEntry) (b : Bool) (m m' : MemoryLedger)
    → append d m ≡ ok (false, m)
    → append e m ≡ ok (b, m')
    → append d m' ≡ ok (false, m')
unfolding append
append_known d e b m m' known h = elim (Bool-cases (includes m.seen_keys d.idempotency_key)) [
  | inl seen ↦ ground (arith, seen)
  | inr fresh ↦ absurd (ground (arith, fresh))
]

pub store : LedgerStore MemoryLedger Anything
store = record {
  append = append;
  balance = balance;
  entry_postings = entry_postings;
  totals_by_type = totals_by_type;
  balance_applied = balance_applied;
  postings_applied = postings_applied;
  append-IsSound = λ e b m m' n v h. tt;
  append_duplicate = append_duplicate;
  append_again = append_again;
  append_known = append_known;
}

-- ===== src/Deposits/Watcher/Announced.antt =====
-- What a poll announces.
use cixtech.Prelude.{
  ap, ℕ, suc, ◌+◌, ◌++◌, Text, List, [], ◌∷◌, Option, none, some, ◌≡◌, refl, arith,
}
use cixtech.Errors.{Result, ok}
use cixtech.Effect.{Effect, ◌>>=◌, >>=-eq-ok}
use cixtech.Ledger.Store.{LedgerStore}
use cixtech.Pool.Types.{PoolAddressRow}
use cixtech.Deposits.Ingest.{ChainDeposit, IngestStatus, ReverseStatus, Booking, Ingestor}
use cixtech.Deposits.Watcher.{
  Kind, Notice, Watch, Source, Polled, notice, on_booking, on_source, announce, announce_deposit,
  announce_reversal, sum_each, handle_deposit, handle_reorged, reversals, poll_address, poll_each,
  poll_once,
}

-- The notices of each kind.
abbrev pub confirmations : List Notice → ℕ
confirmations [] = 0
confirmations (n ∷ ns) = elim n.kind [
  | Kind.confirmed ↦ suc (confirmations ns)
  | _ ↦ confirmations ns
]

abbrev pub reorgs : List Notice → ℕ
reorgs [] = 0
reorgs (n ∷ ns) = elim n.kind [ Kind.reorged ↦ suc (reorgs ns) | _ ↦ reorgs ns ]

confirmations-append :
    (ns : List Notice) (n : Notice)
    → confirmations (ns ++ n ∷ []) ≡ confirmations ns + confirmations (n ∷ [])
confirmations-append [] n = omega arith
confirmations-append (k ∷ ns) n = ground (arith, confirmations-append ns n)

reorgs-append :
    (ns : List Notice) (n : Notice) → reorgs (ns ++ n ∷ []) ≡ reorgs ns + reorgs (n ∷ [])
reorgs-append [] n = omega arith
reorgs-append (k ∷ ns) n = ground (arith, reorgs-append ns n)

returned : {A W : Type 0} {a b : A} {w v : W} → ◌≡◌ {A = Result A × W} (ok a, w) (ok b, v) → a ≡ b
returned h = cc

ended : {A W : Type 0} {a b : A} {w v : W} → ◌≡◌ {A = Result A × W} (ok a, w) (ok b, v) → w ≡ v
ended h = cc

module _ {S X : Type 0} where
  -- The outbox has grown by this many confirmations and reorganisations.
  pub record Grows (credited reversed : ℕ) (w v : Watch S X) : Type 0 where
    pub confirmed : confirmations v.outbox ≡ confirmations w.outbox + credited
    pub undone : reorgs v.outbox ≡ reorgs w.outbox + reversed

  Grows-none : (w v : Watch S X) → v.outbox ≡ w.outbox → Grows 0 0 w v
  Grows-none w v h = record { confirmed = rw h (omega arith); undone = rw h (omega arith) }

  Grows-trans :
      (a b c d : ℕ) (w v u : Watch S X) → Grows a b w v → Grows c d v u → Grows (a + c) (b + d) w u
  Grows-trans a b c d w v u p q = omega (arith, p.confirmed, p.undone, q.confirmed, q.undone)

  Grows-both : (n m : ℕ) (w v u : Watch S X) → Grows n 0 w v → Grows 0 m v u → Grows n m w u
  Grows-both n m w v u p q = omega (arith, p.confirmed, p.undone, q.confirmed, q.undone)

  Grows-after : (a b : ℕ) (w v u : Watch S X) → v.outbox ≡ w.outbox → Grows a b v u → Grows a b w u
  Grows-after a b w v u same p = record {
    confirmed = let c = p.confirmed in rw same at c;
    undone = let c = p.undone in rw same at c;
  }

  announce-Grows :
      (n : Notice) (w : Watch S X)
      → Grows (confirmations (n ∷ [])) (reorgs (n ∷ [])) w (announce n w).1
  unfolding announce
  announce-Grows n w = record {
    confirmed = confirmations-append w.outbox n;
    undone = reorgs-append w.outbox n;
  }

  announce_deposit-Grows :
      (chain : Text) (a : PoolAddressRow) (d : ChainDeposit) (status : IngestStatus)
      (w v : Watch S X) (n : ℕ)
      → announce_deposit chain a d status w ≡ (ok n, v)
      → Grows n 0 w v
  unfolding announce_deposit ◌>>=◌ announce
  announce_deposit-Grows chain a d IngestStatus.credited w v n h =
      let n_is : 1 ≡ n = returned h in
      let v_is : (announce (notice chain a Kind.confirmed d) w).1 ≡ v = ended h in
      rw (← n_is, ← v_is) (announce-Grows (notice chain a Kind.confirmed d) w)
  announce_deposit-Grows chain a d IngestStatus.quarantined w v n h =
      let n_is : 0 ≡ n = returned h in
      let v_is : (announce (notice chain a Kind.hold d) w).1 ≡ v = ended h in
      rw (← n_is, ← v_is) (announce-Grows (notice chain a Kind.hold d) w)
  announce_deposit-Grows chain a d IngestStatus.duplicate w v n h =
      rw (← (returned h), ← (ended h)) (Grows-none w w refl)
  announce_deposit-Grows chain a d IngestStatus.unmatched w v n h =
      rw (← (returned h), ← (ended h)) (Grows-none w w refl)

  announce_reversal-Grows :
      (chain : Text) (a : PoolAddressRow) (d : ChainDeposit) (status : ReverseStatus)
      (w v : Watch S X) (n : ℕ)
      → announce_reversal chain a d status w ≡ (ok n, v)
      → Grows 0 n w v
  unfolding announce_reversal ◌>>=◌ announce
  announce_reversal-Grows chain a d ReverseStatus.reversed w v n h =
      let n_is : 1 ≡ n = returned h in
      let v_is : (announce (notice chain a Kind.reorged d) w).1 ≡ v = ended h in
      rw (← n_is, ← v_is) (announce-Grows (notice chain a Kind.reorged d) w)
  announce_reversal-Grows chain a d ReverseStatus.not_found w v n h =
      rw (← (returned h), ← (ended h)) (Grows-none w w refl)

  -- What every round keeps to with the number it returns, the loop keeps to with the sum.
  sum_each_rule :
      {D : Type 0} (P : ℕ → Watch S X → Watch S X → Type 0) (round : D → Effect (Watch S X) ℕ)
      → ((w : Watch S X) → P 0 w w)
      → ((a b : ℕ) (w v u : Watch S X) → P a w v → P b v u → P (a + b) w u)
      → ((d : D) (w v : Watch S X) (n : ℕ) → round d w ≡ (ok n, v) → P n w v)
      → (ds : List D) (w v : Watch S X) (n : ℕ) → sum_each round ds w ≡ (ok n, v)
      → P n w v
  unfolding sum_each
  sum_each_rule P round start join each [] w v n h = rw (← (returned h), ← (ended h)) (start w)
  sum_each_rule P round start join each (d ∷ ds) w v n h =
      let (a, w1, first, next) = >>=-eq-ok _ _ _ _ _ h in
      let (b, w2, rest, last) = >>=-eq-ok _ _ _ _ _ next in
      let p = each d w w1 a first in
      let q = sum_each_rule P round start join each ds w1 w2 b rest in
      rw (← (returned last), ← (ended last)) (join a b w w1 w2 p q)

module _ {S X : Type 0} {IsSound : S → Type 0} (store : LedgerStore S IsSound)
    (ingestor : Ingestor X) (source : Source X) (clock : Watch S X → ℕ) where
  on_booking-outbox :
      {A : Type 0} (m : Effect (Booking S X) A) (w v : Watch S X) (r : Result A)
      → on_booking m w ≡ (r, v)
      → v.outbox ≡ w.outbox
  unfolding on_booking
  on_booking-outbox m w v r h =
      let e : (on_booking m w).1 ≡ v = ap (λ (x : Result _ × Watch S X). x.1) h in rw (← e) refl

  on_source-outbox :
      {A : Type 0} (m : Effect X A) (w v : Watch S X) (r : Result A)
      → on_source m w ≡ (r, v)
      → v.outbox ≡ w.outbox
  unfolding on_source
  on_source-outbox m w v r h =
      let e : (on_source m w).1 ≡ v = ap (λ (x : Result _ × Watch S X). x.1) h in rw (← e) refl

  handle_deposit-Grows :
      (chain : Text) (a : PoolAddressRow) (d : ChainDeposit) (w v : Watch S X) (n : ℕ)
      → handle_deposit store ingestor source clock chain a d w ≡ (ok n, v)
      → Grows n 0 w v
  unfolding handle_deposit
  handle_deposit-Grows chain a d w v n h =
      let (status, w1, ingested, announced) = >>=-eq-ok _ _ _ _ _ h in
      Grows-after n 0 w w1 v (on_booking-outbox _ w w1 _ ingested)
        (announce_deposit-Grows chain a d status w1 v n announced)

  handle_reorged-Grows :
      (chain : Text) (a : PoolAddressRow) (d : ChainDeposit) (w v : Watch S X) (n : ℕ)
      → handle_reorged store ingestor source clock chain a d w ≡ (ok n, v)
      → Grows 0 n w v
  unfolding handle_reorged
  handle_reorged-Grows chain a d w v n h =
      let (status, w1, undone, announced) = >>=-eq-ok _ _ _ _ _ h in
      Grows-after 0 n w w1 v (on_booking-outbox _ w w1 _ undone)
        (announce_reversal-Grows chain a d status w1 v n announced)

  reversals-Grows :
      (gone : Option ((chain address : Text) → Effect X (List ChainDeposit))) (chain : Text)
      (a : PoolAddressRow) (w v : Watch S X) (n : ℕ)
      → reversals store ingestor source clock gone chain a w ≡ (ok n, v)
      → Grows 0 n w v
  unfolding reversals
  reversals-Grows none chain a w v n h = rw (← (returned h), ← (ended h)) (Grows-none w w refl)
  reversals-Grows (some gone) chain a w v n h =
      let (ds, w1, read, undone) = >>=-eq-ok _ _ _ _ _ h in
      Grows-after 0 n w w1 v (on_source-outbox _ w w1 _ read) (
        sum_each_rule (λ n w v. Grows 0 n w v) (handle_reorged store ingestor source clock chain a)
          (λ w. Grows-none w w refl) (λ a b w v u p q. Grows-trans 0 a 0 b w v u p q)
          (handle_reorged-Grows chain a) ds w1 v n undone)

  -- What a poll reports is what it has announced.
  abbrev Reports : Polled → Watch S X → Watch S X → Type 0
  Reports p w v = Grows p.credited p.reversed w v

  poll_address-Reports :
      (chain : Text) (a : PoolAddressRow) (w v : Watch S X) (p : Polled)
      → poll_address store ingestor source clock chain a w ≡ (ok p, v)
      → Reports p w v
  unfolding poll_address
  poll_address-Reports chain a w v p h =
      let (n, w2, credited, next) = >>=-eq-ok _ _ _ _ _ h in
      let (ds, w1, read, ingested) = >>=-eq-ok _ _ _ _ _ credited in
      let (m, w3, undone, last) = >>=-eq-ok _ _ _ _ _ next in
      let first =
        sum_each_rule (λ n w v. Grows n 0 w v) (handle_deposit store ingestor source clock chain a)
          (λ w. Grows-none w w refl) (λ a b w v u p q. Grows-trans a 0 b 0 w v u p q)
          (handle_deposit-Grows chain a) ds w1 w2 n ingested in
      let second = Grows-after n 0 w w1 w2 (on_source-outbox _ w w1 _ read) first in
      let third = reversals-Grows source.reorged chain a w2 w3 m undone in
      rw (← (returned last), ← (ended last)) (Grows-both n m w w2 w3 second third)

  poll_each-Reports :
      (chain : Text) (addresses : List PoolAddressRow) (w v : Watch S X) (p : Polled)
      → poll_each store ingestor source clock chain addresses w ≡ (ok p, v)
      → Reports p w v
  unfolding poll_each
  poll_each-Reports chain [] w v p h = rw (← (returned h), ← (ended h)) (Grows-none w w refl)
  poll_each-Reports chain (a ∷ addresses) w v p h =
      let (first, w1, polled, next) = >>=-eq-ok _ _ _ _ _ h in
      let (others, w2, rest, last) = >>=-eq-ok _ _ _ _ _ next in
      rw (← (returned last), ← (ended last))
        (Grows-trans first.credited first.reversed others.credited others.reversed w w1 w2
          (poll_address-Reports chain a w w1 first polled)
          (poll_each-Reports chain addresses w1 w2 others rest))

  -- A poll that ends reports exactly what it announced: the outbox has grown by as many confirmations
  -- as the deposits it says it credited, and by as many reorganisations as the credits it says it
  -- reversed, whatever the addresses, the deposits and the world outside are.
  pub poll_once-Grows :
      (chain : Text) (w v : Watch S X) (p : Polled)
      → poll_once store ingestor source clock chain w ≡ (ok p, v)
      → (confirmations v.outbox ≡ confirmations w.outbox + p.credited)
        × (reorgs v.outbox ≡ reorgs w.outbox + p.reversed)
  unfolding poll_once
  poll_once-Grows chain w v p h =
      let grown =
        poll_each-Reports chain (source.active_addresses chain w.booking.outside) w v p h in
      (grown.confirmed, grown.undone)

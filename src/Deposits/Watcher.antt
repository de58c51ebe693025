-- ===== src/Deposits/Watcher.antt =====
-- `DepositWatcher` of backend/src/chains/ingest/deposit-watcher.ts. What it hands to the outbox is
-- kept as the list of the calls; `Webhooks.enqueue` models the outbox itself. The clock is a function
-- of the state, read anew for each deposit, so that the calls of a poll may have different times.
pub mod Announced
use cixtech.Prelude.{ℕ, suc, ◌+◌, Text, ◌++◌, List, [], ◌∷◌, Option, none, some}
use cixtech.Errors.{Result, ok, err}
use cixtech.Effect.{Effect, ◌>>=◌, ◌>>◌, done}
use cixtech.Ledger.Store.{LedgerStore}
use cixtech.Pool.Types.{PoolAddressRow}
use cixtech.Deposits.Ingest.{
  ChainDeposit, IngestStatus, ReverseStatus, Booking, Ingestor, ingest_confirmed, reverse_credit,
}

pub data Kind : Type 0 where
  confirmed hold reorged : Kind

-- `outbox.enqueue(tenant, kind, { … })`
pub record Notice : Type 0 where
  pub chain : Text
  pub tenant : Text
  pub kind : Kind
  pub account : Text
  pub address : Text
  pub deposit : ChainDeposit

pub record Watch (S X : Type 0) : Type 0 where
  pub booking : Booking S X
  pub outbox : List Notice

-- `DepositSource`, whose reads may fail and change the world outside.
pub record Source (X : Type 0) : Type 0 where
  pub fetch_inbound : (chain address : Text) → Effect X (List ChainDeposit)
  pub reorged : Option ((chain address : Text) → Effect X (List ChainDeposit))
  pub active_addresses : Text → X → List PoolAddressRow

pub record Polled : Type 0 where
  pub credited : ℕ
  pub reversed : ℕ

abbrev pub notice : Text → PoolAddressRow → Kind → ChainDeposit → Notice
notice chain a kind d = record {
  chain = chain;
  tenant = a.tenant;
  kind = kind;
  account = a.merchant;
  address = a.address;
  deposit = d;
}

module _ {S X : Type 0} where
  unfoldable pub on_booking : {A : Type 0} → Effect (Booking S X) A → Effect (Watch S X) A
  on_booking m w = let r = m w.booking in (r.0, record w { booking = r.1 })

  unfoldable pub on_source : {A : Type 0} → Effect X A → Effect (Watch S X) A
  on_source m w =
      let r = m w.booking.outside in
      (r.0, record w { booking = record w.booking { outside = r.1 } })

  unfoldable pub announce : Notice → Effect (Watch S X) (Unit {0})
  announce n w = (ok tt, record w { outbox = w.outbox ++ n ∷ [] })

  -- What follows the status of a deposit: how many were credited.
  unfoldable pub announce_deposit :
      Text → PoolAddressRow → ChainDeposit → IngestStatus → Effect (Watch S X) ℕ
  announce_deposit chain a d IngestStatus.credited =
      announce (notice chain a Kind.confirmed d) >> done 1
  announce_deposit chain a d IngestStatus.quarantined =
      announce (notice chain a Kind.hold d) >> done 0
  announce_deposit chain a d IngestStatus.duplicate = done 0
  announce_deposit chain a d IngestStatus.unmatched = done 0

  unfoldable pub announce_reversal :
      Text → PoolAddressRow → ChainDeposit → ReverseStatus → Effect (Watch S X) ℕ
  announce_reversal chain a d ReverseStatus.reversed =
      announce (notice chain a Kind.reorged d) >> done 1
  announce_reversal chain a d ReverseStatus.not_found = done 0

-- A loop that adds up what its rounds return.
unfoldable pub sum_each : {W D : Type 0} → (D → Effect W ℕ) → List D → Effect W ℕ
sum_each round [] = done 0
sum_each round (d ∷ ds) =
    let rest = sum_each round ds in round d >>= λ n. rest >>= λ m. done (n + m)

module _ {S X : Type 0} {IsSound : S → Type 0} (store : LedgerStore S IsSound)
    (ingestor : Ingestor X) (source : Source X) (clock : Watch S X → ℕ) where
  unfoldable pub handle_deposit : Text → PoolAddressRow → ChainDeposit → Effect (Watch S X) ℕ
  handle_deposit chain a d w =
      (on_booking (ingest_confirmed store ingestor (clock w) d) >>= announce_deposit chain a d) w

  unfoldable pub handle_reorged : Text → PoolAddressRow → ChainDeposit → Effect (Watch S X) ℕ
  handle_reorged chain a d w =
      (on_booking (reverse_credit store ingestor (clock w) d) >>= announce_reversal chain a d) w

  unfoldable pub reversals :
      Option ((chain address : Text) → Effect X (List ChainDeposit))
      → Text
      → PoolAddressRow
      → Effect (Watch S X) ℕ
  reversals none chain a = done 0
  reversals (some gone) chain a =
      on_source (gone chain a.address) >>= sum_each (handle_reorged chain a)

  unfoldable pub poll_address : Text → PoolAddressRow → Effect (Watch S X) Polled
  poll_address chain a =
      on_source (source.fetch_inbound chain a.address)
      >>= sum_each (handle_deposit chain a)
      >>= λ credited. reversals source.reorged chain a >>= λ reversed.
          done (record { credited = credited; reversed = reversed })

  unfoldable pub poll_each : Text → List PoolAddressRow → Effect (Watch S X) Polled
  poll_each chain [] = done (record { credited = 0; reversed = 0 })
  poll_each chain (a ∷ addresses) =
      let rest = poll_each chain addresses in
      poll_address chain a >>= λ first. rest >>= λ others. done (record {
        credited = first.credited + others.credited;
        reversed = first.reversed + others.reversed;
      })

  unfoldable pub poll_once : Text → Effect (Watch S X) Polled
  poll_once chain w = poll_each chain (source.active_addresses chain w.booking.outside) w

  -- The number of credited deposits, and the chains whose poll failed.
  unfoldable pub poll_all : List Text → Watch S X → (ℕ × List Text) × Watch S X
  poll_all [] w = ((0, []), w)
  poll_all (chain ∷ chains) w =
      let r = poll_once chain w in
      let rest = poll_all chains r.1 in
      elim r.0 [
        | err thrown ↦ ((rest.0.0, chain ∷ rest.0.1), rest.1)
        | ok polled ↦ ((polled.credited + rest.0.0, rest.0.1), rest.1)
      ]

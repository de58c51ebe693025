-- ===== src/Deposits/Ingest.antt =====
-- `DepositIngestor` of backend/src/chains/ingest/deposit-ingestor.ts. The attribution of an address,
-- the screening and the life cycle of an address belong to the world outside, which they may change.
pub mod Answers
pub mod Once
use cixtech.Prelude.{ℕ, ℤ, Text, codes, ◌++◌, Bool, true, false, if◌then◌else◌, Option, none, some}
use cixtech.Prelude.Decimal.{nat_text}
use cixtech.Errors.{Result, ok, err, Error, ErrorCode}
use cixtech.Effect.{Effect, ◌>>=◌, ◌>>◌, done, swallow, attempt}
use cixtech.Ledger.Types.{JsNumber, JournalEntry, DepositFinalizedInput, DepositQuarantinedInput}
use cixtech.Ledger.Flows.{deposit_finalized, deposit_quarantined}
use cixtech.Ledger.Store.{LedgerStore}
use cixtech.Ledger.Service.{post, reverse_by_ref}

-- The fields of `ChainDeposit` that the program reads after it is observed.
pub record ChainDeposit : Type 0 where
  pub chain : Text
  pub tx_id : Text
  pub index : ℕ
  pub to : Text
  pub asset : Text
  pub amount_base_units : ℤ

pub record AttributionEntry : Type 0 where
  pub tenant : Text
  pub merchant : Text
  pub fee_basis_points : JsNumber

pub data IngestStatus : Type 0 where
  credited quarantined duplicate unmatched : IngestStatus

pub data ReverseStatus : Type 0 where
  reversed not_found : ReverseStatus

pub record Booking (S X : Type 0) : Type 0 where
  pub ledger : S
  pub outside : X

pub record AddressLifecycle (X : Type 0) : Type 0 where
  pub mark_in_use : (chain address : Text) → Effect X (Unit {0})
  pub cool : (chain address : Text) → Effect X (Unit {0})

-- What the constructor is given. A screening answers whether the deposit is blocked.
pub record Ingestor (X : Type 0) : Type 0 where
  pub resolve : (chain address : Text) → X → Option AttributionEntry
  pub lifecycle : Option (AddressLifecycle X)
  pub screen : Option (ChainDeposit → Effect X Bool)

-- `${d.chain}:${d.txId}:${d.index}`
abbrev pub ref_of : ChainDeposit → Text
ref_of d = d.chain ++ (codes ":" ++ (d.tx_id ++ (codes ":" ++ nat_text d.index)))

abbrev pub reverse_ref : ChainDeposit → Text
reverse_ref d = codes "reverse:" ++ ref_of d

abbrev pub pool_account : ChainDeposit → AttributionEntry → Text
pool_account d attr = codes "pool_addr:" ++ (d.chain ++ (codes ":" ++ attr.merchant))

abbrev pub quarantine_input : ChainDeposit → AttributionEntry → DepositQuarantinedInput
quarantine_input d attr = record {
  id = ref_of d;
  idempotency_key = ref_of d;
  asset = d.asset;
  amount = d.amount_base_units;
  pool_addr = pool_account d attr;
  compliance_suspense = codes "compliance_suspense:" ++ attr.tenant;
  occurred_at = none;
}

abbrev pub credit_input : ChainDeposit → AttributionEntry → DepositFinalizedInput
credit_input d attr = record {
  id = ref_of d;
  idempotency_key = ref_of d;
  asset = d.asset;
  amount = d.amount_base_units;
  fee_basis_points = attr.fee_basis_points;
  pool_addr = pool_account d attr;
  merchant_available = codes "merchant_available:" ++ (attr.tenant ++ (codes ":" ++ attr.merchant));
  fee_revenue = codes "egofi_fee_revenue:" ++ attr.tenant;
  occurred_at = none;
}

-- The entry is built, which may throw, and posted.
abbrev pub post_built :
    {S : Type 0} {IsSound : S → Type 0}
    → LedgerStore S IsSound
    → Result JournalEntry
    → S
    → Result (Bool × S)
post_built store (err thrown) s = err thrown
post_built store (ok entry) s = post store entry s

module _ {S X : Type 0} where
  abbrev pub on_outside : {A : Type 0} → Effect X A → Effect (Booking S X) A
  on_outside m w = let r = m w.outside in (r.0, record w { outside = r.1 })

  abbrev pub on_ledger : {A : Type 0} → (S → Result (A × S)) → Effect (Booking S X) A
  on_ledger m w = let r = attempt w.ledger (m w.ledger) in (r.0, record w { ledger = r.1 })

  -- `this.screener && (await this.screener.screen(d)) === "blocked"`
  unfoldable pub is_blocked :
      Option (ChainDeposit → Effect X Bool) → ChainDeposit → Effect (Booking S X) Bool
  is_blocked none d = done false
  is_blocked (some screen) d = on_outside (screen d)

  -- What follows an entry that was applied; what it throws is dropped.
  unfoldable pub after_applied :
      Option (AddressLifecycle X)
      → (AddressLifecycle X → Effect X (Unit {0}))
      → Bool
      → Booking S X
      → Booking S X
  after_applied none act applied w = w
  after_applied (some lifecycle) act false w = w
  after_applied (some lifecycle) act true w = record w { outside = (act lifecycle w.outside).1 }

  -- The answer to a posting, by what the ledger says and leaves behind.
  abbrev pub answered :
      IngestStatus
      → (Bool → Booking S X → Booking S X)
      → Booking S X
      → Result Bool × S
      → Result IngestStatus × Booking S X
  answered status follow w (err thrown, s) = (err thrown, record w { ledger = s })
  answered status follow w (ok applied, s) = (
    ok (if applied then status else IngestStatus.duplicate),
    follow applied (record w { ledger = s }),
  )

module _ {S X : Type 0} {IsSound : S → Type 0} (store : LedgerStore S IsSound)
    (ingestor : Ingestor X) (now : ℕ) where
  -- An entry is posted, the life cycle of the address goes on, and the status is returned.
  unfoldable pub booked :
      IngestStatus
      → (AddressLifecycle X → Effect X (Unit {0}))
      → Result JournalEntry
      → Effect (Booking S X) IngestStatus
  unfolding after_applied
  booked status act built w =
      answered status (after_applied ingestor.lifecycle act) w
        (attempt w.ledger (post_built store built w.ledger))

  unfoldable pub quarantine : ChainDeposit → AttributionEntry → Effect (Booking S X) IngestStatus
  unfolding booked deposit_quarantined
  quarantine d attr =
      booked IngestStatus.quarantined (λ l. l.mark_in_use d.chain d.to)
        (deposit_quarantined now (quarantine_input d attr))

  unfoldable pub credit : ChainDeposit → AttributionEntry → Effect (Booking S X) IngestStatus
  unfolding booked deposit_finalized
  credit d attr =
      booked IngestStatus.credited (λ l. l.mark_in_use d.chain d.to >> l.cool d.chain d.to)
        (deposit_finalized now (credit_input d attr))

  abbrev pub screened : Bool → ChainDeposit → AttributionEntry → Effect (Booking S X) IngestStatus
  screened true d attr = quarantine d attr
  screened false d attr = credit d attr

  unfoldable pub ingest_attributed :
      ChainDeposit → Option AttributionEntry → Effect (Booking S X) IngestStatus
  unfolding is_blocked quarantine credit
  ingest_attributed d none = done IngestStatus.unmatched
  ingest_attributed d (some attr) =
      is_blocked ingestor.screen d >>= λ blocked. screened blocked d attr

  -- The status that `ingestConfirmed` returns, beside the reference.
  unfoldable pub ingest_confirmed : ChainDeposit → Effect (Booking S X) IngestStatus
  unfolding ingest_attributed
  ingest_confirmed d w = ingest_attributed d (ingestor.resolve d.chain d.to w.outside) w

  -- `catch (err) { if (err instanceof UnknownEntryError) … throw err; }`
  abbrev pub reversal_answer : Result Bool → Result ReverseStatus
  reversal_answer (ok _) = ok ReverseStatus.reversed
  reversal_answer (err (Error.app ErrorCode.ledger_unknown_entry)) = ok ReverseStatus.not_found
  reversal_answer (err e) = err e

  unfoldable pub reverse_credit : ChainDeposit → Effect (Booking S X) ReverseStatus
  unfolding reverse_by_ref
  reverse_credit d w =
      let r = on_ledger (reverse_by_ref store (ref_of d) (reverse_ref d) (reverse_ref d) now) w in
      (reversal_answer r.0, r.1)

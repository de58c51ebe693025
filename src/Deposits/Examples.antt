-- ===== src/Deposits/Examples.antt =====
-- A deposit of 100 with a fee of 0.5 % over the SQL ledger, polled from one address.
use cixtech.Prelude.{
  ℕ, suc, ℤ, pos, ◌+ℤ◌, ◌*ℤ◌, ◌-ℤ◌, quot, neg, Text, codes, Text-discrete, true, List, [], ◌∷◌,
  none, some, ◌≡◌, refl, ◌⊎◌, ◌↔◌, ◌+◌,
}
use cixtech.Errors.{ok}
use cixtech.Effect.{◌>>=◌}
use cixtech.Ledger.Types.{JsNumber, flip}
use cixtech.Ledger.Balanced.{assert_balanced}
use cixtech.Prelude.Decimal.{digits, nat_text}
use cixtech.Ledger.Flows.{split_fee, checked, deposit_finalized, deposit_quarantined}
use cixtech.Ledger.Sql.{SqlLedger, empty, append, entry_postings}
use cixtech.Ledger.Sql.Sound.{store}
use cixtech.Ledger.Service.{post, reverse_by_ref}
use cixtech.Pool.Types.{PoolState, GatherStrategyKind, PoolAddressRow}
use cixtech.Deposits.Ingest.{
  ChainDeposit, AttributionEntry, IngestStatus, Booking, Ingestor, is_blocked, after_applied,
  booked, quarantine, credit, ingest_attributed, ingest_confirmed, reverse_credit,
}
use cixtech.Deposits.Ingest.Once.{Event, history, ingest_once}
use mathlib.Core.List.{Memᴰ}
use cixtech.Deposits.Reconcile.{
  PoolGroup, ExternalDriftRow, Reconciler, drift_row, on_chain_sum, compare, compare_assets,
  compare_groups, trip_on, run,
}
use cixtech.Deposits.Reconcile.Rows.{Drifted}
use cixtech.Deposits.Reconcile.Complete.{IsQuiet, Reports, run_reconciled}
use cixtech.Deposits.Watcher.{
  Watch, Source, Polled, on_booking, on_source, announce, announce_deposit, announce_reversal,
  sum_each, handle_deposit, handle_reorged, reversals, poll_address, poll_each, poll_once,
}
use cixtech.Deposits.Watcher.Announced.{confirmations, reorgs, poll_once-Grows}

abbrev attribution : AttributionEntry
attribution = record {
  tenant = codes "t";
  merchant = codes "m";
  fee_basis_points = JsNumber.integer (pos 50);
}

-- The world outside is the number of addresses that were marked in use.
abbrev ingestor : Ingestor ℕ
ingestor = record {
  resolve = λ chain address outside. some attribution;
  lifecycle = none;
  screen = none;
}

abbrev deposit : ChainDeposit
deposit = record {
  chain = codes "TRON";
  tx_id = codes "x";
  index = 0;
  to = codes "T0";
  asset = codes "USDT";
  amount_base_units = pos 1000;
}

abbrev start : Booking SqlLedger ℕ
start = record { ledger = empty; outside = 0 }

booked_once :
    (w : Booking SqlLedger ℕ) × (ingest_confirmed store ingestor 5 deposit start
      ≡ (ok IngestStatus.credited, w))
unfolding ingest_confirmed ingest_attributed is_blocked quarantine credit booked after_applied ◌>>=◌
    deposit_finalized deposit_quarantined split_fee checked quot ◌*ℤ◌ ◌-ℤ◌ digits nat_text post
    append empty store assert_balanced Text-discrete ◌+ℤ◌ neg
booked_once = (_, refl)

-- The credit is reversed before the deposit is reported again.
abbrev between : List (Event ℕ)
between = Event.reverses 7 deposit ∷ []

ingest_once_example :
    ((ingest_confirmed store ingestor 9 deposit
        (history store ingestor between booked_once.0)).1.ledger
      ≡ (history store ingestor between booked_once.0).ledger)
    × ((ingest_confirmed store ingestor 9 deposit (history store ingestor between booked_once.0)).0
          ≡ ok IngestStatus.duplicate
        → (IngestStatus.duplicate ≡ IngestStatus.duplicate)
          ⊎ (IngestStatus.duplicate ≡ IngestStatus.unmatched))
ingest_once_example =
    ingest_once store ingestor 5 9 deposit deposit start booked_once.0 IngestStatus.credited
      IngestStatus.duplicate between booked_once.1 (λ h. absurd (cc)) refl

abbrev address : PoolAddressRow
address = record {
  id = codes "a";
  tenant = codes "t";
  merchant = codes "m";
  chain = codes "TRON";
  derivation_index = 0;
  address = codes "T0";
  state = PoolState.in_use;
  invoice_id = none;
  cooldown_until = none;
  gather_strategy = GatherStrategyKind.eoa_fund_transfer;
}

abbrev source : Source ℕ
source = record {
  fetch_inbound = λ chain at outside. (ok (deposit ∷ []), outside);
  reorged = some (λ chain at outside. (ok (deposit ∷ []), outside));
  active_addresses = λ chain outside. address ∷ [];
}

abbrev watch : Watch SqlLedger ℕ
watch = record { booking = start; outbox = [] }

abbrev one_each : Polled
one_each = record { credited = 1; reversed = 1 }

-- The time goes on with each notice.
abbrev clock : Watch SqlLedger ℕ → ℕ
clock w = 5 + confirmations w.outbox

polled :
    (w : Watch SqlLedger ℕ) × (poll_once store ingestor source clock (codes "TRON") watch
      ≡ (ok one_each, w))
unfolding ingest_confirmed ingest_attributed is_blocked quarantine credit booked after_applied ◌>>=◌
    deposit_finalized deposit_quarantined split_fee checked quot ◌*ℤ◌ ◌-ℤ◌ digits nat_text post
    append empty store flip assert_balanced Text-discrete ◌+ℤ◌ neg poll_once poll_each poll_address
    on_source on_booking sum_each handle_deposit handle_reorged reversals reverse_credit
    reverse_by_ref entry_postings announce announce_deposit announce_reversal
polled = (_, refl)

poll_once-Grows_example : (confirmations polled.0.outbox ≡ 0 + 1) × (reorgs polled.0.outbox ≡ 0 + 1)
poll_once-Grows_example =
    poll_once-Grows store ingestor source clock (codes "TRON") watch polled.0 one_each polled.1

-- A group whose two addresses hold 30 and 30 where the ledger has 100.
abbrev group : PoolGroup
group = record {
  tenant = codes "t";
  merchant = codes "m";
  chain = codes "TRON";
  addresses = codes "T0" ∷ codes "T1" ∷ [];
}

abbrev ledger : Text → Text → ℤ
ledger account asset = pos 100

abbrev held : Text → Text → Text → ℤ
held chain at asset = pos 30

abbrev reconciler : Reconciler ℕ
reconciler = record {
  get_balance = λ account asset x. (ok (ledger account asset), x);
  pool_groups = λ x. (ok (group ∷ []), x);
  balance = λ chain at asset x. (ok (held chain at asset), x);
  assets = codes "USDT" ∷ [];
  trip = some (λ rows x. (ok tt, suc x));
}

quiet : IsQuiet ledger held reconciler (group ∷ []) 0
quiet = record {
  groups_read = refl;
  ledger_read = λ account asset. refl;
  chain_read = λ chain at asset. refl;
}

run_reconciled_example :
    (found : List ExternalDriftRow) × ((d : ExternalDriftRow)
      → Memᴰ d found ↔ Drifted ledger held reconciler.assets (group ∷ []) d)
    × Reports ledger held reconciler (group ∷ []) 0 quiet reconciler.trip found (run reconciler 0)
run_reconciled_example = run_reconciled ledger held reconciler (group ∷ []) 0 quiet

-- The breaker is tripped.
tripped :
    (rows : List ExternalDriftRow) × (run reconciler 0
      ≡ (ok (record { drift = rows; tripped = true }), 1))
unfolding run compare_groups compare_assets compare on_chain_sum drift_row trip_on ◌>>=◌ ◌+ℤ◌
tripped = (_, refl)

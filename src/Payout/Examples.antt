-- ===== src/Payout/Examples.antt =====
-- A payout of 60 from an address that holds 99, with a fee sweep of 1, over the SQL ledger.
use cixtech.Payout.Service.Authorized.{authorize-leg_request}
use cixtech.Payout.Service.Guarded.{IsGuarded, payout-IsGuarded}
use cixtech.Payout.Authorization.Binding.{AreParts, IsPaid, authorize-mint_iff}
use cixtech.Payout.Service.Released.{is_held, IsFree, payout_releases}
use cixtech.Prelude.{
  ℕ, suc, ◌+◌, pos, neg, ◌+ℤ◌, ◌-ℤ◌, Text, codes, Text-discrete, true, [], ◌∷◌, none, some, ◌≡◌,
  ◌↔◌, ◌≤◌, refl, arith, map, ◌⊎◌,
}
use cixtech.Prelude.Decimal.{nat_text, int_text, digits}
use cixtech.Errors.{ok, err}
use cixtech.Ledger.Types.{Direction, JournalEntry}
use cixtech.Ledger.Accounts.{account_type_of, normal_balance}
use cixtech.Ledger.Balanced.{assert_balanced}
use cixtech.Ledger.Sql.{SqlLedger, empty, append, balance}
use cixtech.Ledger.Sql.Sound.{store}
use cixtech.Ledger.Service.{post, lock_payout, lock_payout_seen, available_balance}
use cixtech.Ledger.Flows.{payout_locked, payout_settled, fee_swept, network_fee_postings}
use cixtech.Policy.Engine.{PolicyConfig, check, approvers, evaluate}
use cixtech.Pool.Types.{PoolState, GatherStrategyKind, PoolAddressRow, GatheredSource, GatheredLeg}
use cixtech.Pool.Gather.{gather}
use cixtech.Pool.Lease.{acquire, release}
use cixtech.Sweep.{FeeSweepPlan, FeeSweepLeg}
use cixtech.Effect.{◌>>=◌}
use cixtech.Payout.Calls.{begin_intent, on_engine, check_policy, on_journal, prepare, send, settle}
use cixtech.Payout.FeeSweep.{
  reserved_by, sweep_fee, sweep_leg, sweep_legs, sweep_planned, sweep_to, fee_request,
}
use cixtech.Payout.Journal.{begin, insert_intent, load, mark_broadcast, mark_settled, set_from}
use cixtech.Payout.Legs.{send_legs, leg_request}
use cixtech.Payout.Postings.{post_settled, post_swept}
use cixtech.Prelude.Dict.{insert, lookup}
use cixtech.Payout.Service.Authorized.{authorize-leg_request}
use cixtech.Payout.Types.{PayoutRequest, TransferIdentity, AuthorizationToken}
use cixtech.Payout.Authorization.{
  Crypto, Signer, join_nul, mint, transfer_commitment, authorize, MintInput, Mode, identity_of,
  invalid_authorization,
}
use cixtech.Payout.World.{PayoutParams, PayoutResult, Moment, World, Deps, standing}
use cixtech.Payout.Service.{
  payout, resume, spend_leased, spend, gather_legs, spend_legs, dispatch, complete,
}
use cixtech.Payout.Service.Replay.{settled_before, payout_once}

-- A hash that leaves its text as it is, and a keyed hash that puts the key before it.
abbrev plain : Crypto
plain = record {
  sha256_hex = λ t. t;
  hmac_hex = λ k t. t;
  json = λ c. c.sighash;
  from_hex = λ t. t;
}

abbrev signer : Signer
signer = record { policy_key = codes "k"; policy_version = codes "1" }

abbrev policy : PolicyConfig ℕ
policy = record {
  max_per_payout_base_units = pos 1000;
  allowlist = codes "T9" ∷ [];
  allowlist_store = none;
  kill_switch = none;
  sanctions = none;
  solvency = none;
  approval = none;
  time_lock = none;
  velocity = none;
}

abbrev address : PoolAddressRow
address = record {
  id = codes "a";
  tenant = codes "t";
  merchant = codes "m";
  chain = codes "TRON";
  derivation_index = 0;
  address = codes "T0";
  state = PoolState.cooling;
  invoice_id = none;
  cooldown_until = none;
  gather_strategy = GatherStrategyKind.eoa_fund_transfer;
}

abbrev plan : FeeSweepPlan
plan = record {
  tenant = codes "t";
  merchant = codes "m";
  chain = codes "TRON";
  asset = codes "USDT";
  claim_base_units = pos 1;
  legs =
      record {
        source = record {
          address = codes "T0";
          derivation_index = 0;
          gather_strategy = GatherStrategyKind.eoa_fund_transfer;
        };
        amount_base_units = pos 1;
      }
      ∷ [];
  total_base_units = pos 1;
  skipped_dust = 0;
}

-- The world outside is the number of requests that were sent so far.
abbrev deps : Deps SqlLedger ℕ
deps = record {
  policy = λ ledger. policy;
  send = λ req sent. (ok (codes "tx"), suc sent);
  balance = λ sent chain at asset. pos 99;
  addresses = λ tenant merchant chain sent. address ∷ [];
  journal = true;
  authorizer = some signer;
  auth_ttl_ms = none;
  approval_store = true;
  approvals_required = none;
  fee_sweep = some (record {
    plan = λ tenant merchant chain asset reserved ledger sent. ok plan;
    treasury_address_for = λ chain. some (codes "T1");
  });
  gather_lease = some 120_000;
  gather_strategies = none;
}

abbrev usdt : Text
usdt = codes "USDT"

-- A deposit of 100, fee 1.
abbrev deposit : JournalEntry
deposit = record {
  id = codes "d1";
  idempotency_key = codes "k1";
  kind = codes "deposit.finalized";
  postings =
      record {
        account = codes "pool_addr:TRON:m";
        asset = usdt;
        amount = pos 100;
        direction = Direction.debit;
      }
      ∷ record {
        account = codes "merchant_available:t:m";
        asset = usdt;
        amount = pos 100;
        direction = Direction.credit;
      }
      ∷ [];
  occurred_at = 5;
}

deposited : (db : SqlLedger) × (post store deposit empty ≡ ok (true, db))
unfolding post store append empty assert_balanced Text-discrete ◌+ℤ◌ neg
deposited = (_, refl)

abbrev start : World SqlLedger ℕ
start = record {
  intents = [];
  leases = [];
  approvals = [];
  engine = record { ledger = deposited.0; outside = 0; requests = [] };
}

abbrev params : PayoutParams
params = record {
  tenant = codes "t";
  merchant = codes "m";
  chain = codes "TRON";
  asset = usdt;
  amount_base_units = pos 60;
  destination = codes "T9";
  idempotency_key = codes "w1";
  requester = none;
  approvals = none;
}

abbrev moment : Moment
moment = record {
  intent_id = codes "i1";
  now = 10;
  begun = 10;
  leased = 11;
  gathered = 12;
  locked = 13;
  sent = 14;
  posted = 15;
  settled = 16;
  swept = λ i. 17;
}

paid :
    (r : PayoutResult) × (w : World SqlLedger ℕ) × (payout store plain deps moment params start
      ≡ (ok r, w))
unfolding payout deposited post store append empty assert_balanced Text-discrete ◌+ℤ◌ neg ◌>>=◌
    begin_intent resume standing on_engine check_policy spend_leased acquire spend gather_legs
    gather ◌-ℤ◌ spend_legs dispatch on_journal lock_payout lock_payout_seen normal_balance
    account_type_of fee_swept network_fee_postings payout_locked payout_settled available_balance
    balance join_nul mint transfer_commitment prepare send settle reserved_by sweep_fee sweep_leg
    sweep_legs sweep_planned sweep_to begin insert_intent load mark_broadcast mark_settled set_from
    send_legs post_settled post_swept complete approvers check evaluate release digits int_text
    nat_text insert lookup
paid = (_, _, refl)

sent : paid.0.tx_id ≡ codes "tx"
unfolding paid
sent = refl

payout_once_example :
    payout store plain deps moment params paid.1
    ≡ (ok (settled_before paid.0.tx_id paid.0.from), paid.1)
payout_once_example =
    payout_once store plain deps refl moment moment params params start paid.1 paid.0 paid.2
      (λ h. absurd (ground (arith, h, sent))) refl

free : IsFree params start
unfolding is_held
free = refl

payout_releases_example : IsFree params (payout store plain deps moment params start).1
payout_releases_example = payout_releases store plain deps 120_000 params refl moment start free

-- Two requests: 60 to the destination and 1 to the treasury.
two_sent : map PayoutRequest.amount_base_units paid.1.engine.requests ≡ pos 60 ∷ pos 1 ∷ []
unfolding paid
two_sent = refl

payout-IsGuarded_example :
    ((payout store plain deps moment params start).1.engine.requests ≡ start.engine.requests)
    ⊎ IsGuarded deps moment params start (payout store plain deps moment params start).1
payout-IsGuarded_example = payout-IsGuarded store plain deps moment params start

abbrev source : GatheredSource
source = record {
  address = codes "T0";
  derivation_index = 0;
  gather_strategy = GatherStrategyKind.eoa_fund_transfer;
}

abbrev leg : GatheredLeg
leg = record { source = source; amount_base_units = pos 60 }

abbrev fee_leg : FeeSweepLeg
fee_leg = record { source = source; amount_base_units = pos 1 }

authorize-leg_request_example :
    (authorize plain signer Mode.require (leg_request plain deps moment params (codes "w1") leg) 20
      ≡ ok tt)
    × (authorize plain signer Mode.require
          (fee_request params (codes "T1") (codes "w1:fee:0") fee_leg)
          20
        ≡ err invalid_authorization)
authorize-leg_request_example =
    authorize-leg_request plain deps signer refl Mode.require moment params (codes "w1") leg
      (codes "T1") (codes "w1:fee:0") fee_leg 20

abbrev transfer : TransferIdentity
transfer = record {
  intent_id = codes "w1";
  chain = codes "TRON";
  asset = usdt;
  amount = codes "60";
  destination = codes "T9";
  from_address = codes "T0";
}

abbrev input : MintInput
input = record {
  intent_id = codes "w1";
  tenant = codes "t";
  merchant = codes "m";
  chain = codes "TRON";
  asset = usdt;
  amount = codes "60";
  destination = codes "T9";
  sighash = transfer_commitment plain transfer;
  approvals = [];
}

abbrev token : AuthorizationToken
token = mint plain signer input 10 300_000

abbrev request : PayoutRequest
request = record {
  chain = codes "TRON";
  asset = usdt;
  amount_base_units = pos 60;
  from_address = codes "T0";
  from_derivation_index = 0;
  to_address = codes "T9";
  idempotency_key = some (codes "w1");
  authorization = some token;
}

transfer-AreParts : AreParts transfer
transfer-AreParts = omega arith

request-AreParts : AreParts (identity_of request token)
unfolding mint int_text digits nat_text
request-AreParts = omega arith

authorize-mint_iff_example :
    (authorize plain signer Mode.require request 20 ≡ ok tt)
    ↔ ((20 ≤ 10 + 300_000) × IsPaid plain signer request transfer)
authorize-mint_iff_example =
    authorize-mint_iff plain signer input transfer 10 300_000 Mode.require request 20 (refl, refl)
      refl transfer-AreParts request-AreParts (λ h. h)

-- ===== src/Pool/Config.antt =====
-- `GatherConfigStore` of backend/src/attribution/gather-config.ts over the table gather_config, whose
-- key is (chain, tenant), with `assertStrategySupported` of gather-strategy.ts and
-- queries/ai.queries.ts. A strategy is a string here, which setActive tests.
pub mod Approved
use cixtech.Prelude.{
  ℕ, Text, Text-discrete, codes, same, if◌then◌else◌, ◌&&◌, ◌||◌, not, Bool, true, false,
  Bool-cases, List, [], ◌∷◌, Option, none, some, get_or, ◌≡◌, refl, arith, includes,
}
use cixtech.Errors.{Result, ok, err, Error, ErrorCode, throw_if, ◌>>=◌, ◌>>◌, >>=-eq-ok}

-- The whole chain is the empty tenant.
abbrev pub chain_wide : Text
chain_wide = []

pub record GatherConfigRow : Type 0 where
  pub chain : Text
  pub tenant : Text
  pub active_strategy : Text
  pub updated_by : Text
  pub approved_by : Text
  pub effective_at : ℕ

pub record SetActive : Type 0 where
  pub chain : Text
  pub tenant : Option Text
  pub strategy : Text
  pub updated_by : Text
  pub approved_by : Text

unfoldable pub row_at : Text → Text → List GatherConfigRow → Option GatherConfigRow
row_at chain tenant [] = none
row_at chain tenant (r ∷ rows) =
    if same r.chain chain && same r.tenant tenant then some r else row_at chain tenant rows

abbrev pub or_else {ℓ} : {A : Type ℓ} → Option A → Option A → Option A
or_else none o = o
or_else (some a) o = some a

-- The row of the tenant stands before that of the chain, as `ORDER BY tenant DESC` puts it.
unfoldable pub active_row : Text → Text → List GatherConfigRow → Option GatherConfigRow
unfolding row_at
active_row chain tenant rows = or_else (row_at chain tenant rows) (row_at chain chain_wide rows)

abbrev pub strategy_or : Option GatherConfigRow → Text → Text
strategy_or none fallback = fallback
strategy_or (some r) fallback = r.active_strategy

unfoldable pub active_for : Text → Text → Text → List GatherConfigRow → Text
unfolding active_row
active_for chain tenant fallback rows = strategy_or (active_row chain tenant rows) fallback

-- `INSERT … ON CONFLICT (chain, tenant) DO UPDATE`
unfoldable pub upsert : GatherConfigRow → List GatherConfigRow → List GatherConfigRow
upsert row [] = row ∷ []
upsert row (r ∷ rows) =
    let rest = upsert row rows in
    if same r.chain row.chain && same r.tenant row.tenant then row ∷ rows else r ∷ rest

abbrev pub unknown_strategy : Error
unknown_strategy = Error.app ErrorCode.gather_strategy_unknown

-- `GATHER_STRATEGIES`
abbrev pub gather_strategies : List Text
gather_strategies = codes "EOA_FUND_TRANSFER" ∷ codes "FORWARDER" ∷ codes "EIP7702" ∷ []

-- `kind === "EIP7702" && family !== "EVM"`
abbrev pub is_unsupported : Text → Text → Bool
is_unsupported kind family = same kind (codes "EIP7702") && not (same family (codes "EVM"))

abbrev pub assert_strategy_supported : Text → Text → Result (Unit {0})
assert_strategy_supported kind family =
    throw_if (is_unsupported kind family) (Error.app ErrorCode.gather_strategy_not_supported)

-- `if (family) …`: no family is known, or the empty one.
abbrev pub assert_supported : Text → Option Text → Result (Unit {0})
assert_supported kind none = ok tt
assert_supported kind (some []) = ok tt
assert_supported kind (some (c ∷ family)) = assert_strategy_supported kind (c ∷ family)

-- `!input.updatedBy || input.updatedBy === input.approvedBy`
abbrev pub is_one_identity : SetActive → Bool
is_one_identity i = same i.updated_by [] || same i.updated_by i.approved_by

abbrev pub row_of : ℕ → SetActive → GatherConfigRow
row_of now i = record {
  chain = i.chain;
  tenant = get_or i.tenant chain_wide;
  active_strategy = i.strategy;
  updated_by = i.updated_by;
  approved_by = i.approved_by;
  effective_at = now;
}

unfoldable pub set_active :
    (Text → Option Text)
    → ℕ
    → SetActive
    → List GatherConfigRow
    → Result (GatherConfigRow × List GatherConfigRow)
unfolding upsert
set_active family_of now i rows = do
  throw_if (not (includes gather_strategies i.strategy)) unknown_strategy
  throw_if (is_one_identity i) unknown_strategy
  assert_supported i.strategy (family_of i.chain)
  ok (row_of now i, upsert (row_of now i) rows)

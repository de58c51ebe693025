-- ===== src/Gas/Station.antt =====
-- `GasStation` of backend/src/chains/treasury/gas-station.ts. The reader of the float, the funder and
-- the breaker are the world outside; each call may fail. The reason that the breaker is tripped with
-- is left out but for the chain.
pub mod Provision
use cixtech.Prelude.{ℕ, ℤ, leb_ℤ, Text, Bool, true, false, List, [], ◌∷◌, Option, none, some}
use cixtech.Prelude.Dict.{lookup}
use cixtech.Errors.{Result, ok, err, Error, ErrorCode, or_throw}
use cixtech.Effect.{Effect, ◌>>=◌, ◌>>◌, done, throw}

pub record GasStationConfig : Type 0 where
  pub native_asset : Text
  pub floor_base_units : ℤ

pub record GasFloatStatus : Type 0 where
  pub chain : Text
  pub balance : ℤ
  pub floor : ℤ
  pub healthy : Bool

pub record FundInput : Type 0 where
  pub chain : Text
  pub address : Text
  pub min_native_base_units : ℤ
  pub idempotency_key : Text

-- What the constructor is given; the map of the configurations in the order of its keys.
pub record GasStation (X : Type 0) : Type 0 where
  pub available : (chain native_asset : Text) → Effect X ℤ
  pub configs : List (Text × GasStationConfig)
  pub funder : Option (FundInput → Effect X ℤ)
  pub trip : Option (Text → Effect X (Unit {0}))

abbrev pub gas_treasury_not_configured : Error
gas_treasury_not_configured = Error.app ErrorCode.gas_treasury_not_configured

abbrev pub gas_float_depleted : Error
gas_float_depleted = Error.app ErrorCode.gas_float_depleted

-- `No gas-station config for chain` is a plain error.
abbrev pub config_for : List (Text × GasStationConfig) → Text → Result GasStationConfig
config_for configs chain = or_throw (lookup chain configs) Error.plain

abbrev pub status_of : Text → GasStationConfig → ℤ → GasFloatStatus
status_of chain c balance = record {
  chain = chain;
  balance = balance;
  floor = c.floor_base_units;
  healthy = leb_ℤ c.floor_base_units balance;
}

module _ {X : Type 0} where
  unfoldable pub status_with :
      ((chain native_asset : Text) → Effect X ℤ)
      → Text
      → Result GasStationConfig
      → Effect X GasFloatStatus
  status_with available chain (err thrown) = throw thrown
  status_with available chain (ok c) =
      available chain c.native_asset >>= λ balance. done (status_of chain c balance)

  -- `if (this.breaker) await this.breaker.trip(…)`
  unfoldable pub trip_breaker : Option (Text → Effect X (Unit {0})) → Text → Effect X (Unit {0})
  trip_breaker none chain = done tt
  trip_breaker (some trip) chain = trip chain

  -- `if (!status.healthy && this.breaker) …`
  unfoldable pub watch_status :
      Option (Text → Effect X (Unit {0})) → Text → Bool → Effect X (Unit {0})
  unfolding trip_breaker
  watch_status breaker chain true = done tt
  watch_status breaker chain false = trip_breaker breaker chain

  -- The funder is called on a healthy float, and the breaker on a depleted one.
  unfoldable pub fund_if :
      Option (Text → Effect X (Unit {0})) → (FundInput → Effect X ℤ) → FundInput → Bool → Effect X ℤ
  unfolding trip_breaker
  fund_if breaker fund i true = fund i
  fund_if breaker fund i false = trip_breaker breaker i.chain >> throw gas_float_depleted

module _ {X : Type 0} (station : GasStation X) where
  unfoldable pub float_status : Text → Effect X GasFloatStatus
  unfolding status_with
  float_status chain = status_with station.available chain (config_for station.configs chain)

  unfoldable pub monitor_each : List (Text × GasStationConfig) → Effect X (List GasFloatStatus)
  unfolding float_status watch_status
  monitor_each [] = done []
  monitor_each ((chain, c) ∷ configs) =
      let rest = monitor_each configs in
      float_status chain >>= λ status.
      watch_status station.trip chain status.healthy
      >> (rest >>= λ statuses. done (status ∷ statuses))

  unfoldable pub monitor : Effect X (List GasFloatStatus)
  unfolding monitor_each
  monitor = monitor_each station.configs

  unfoldable pub provision_with : Option (FundInput → Effect X ℤ) → FundInput → Effect X ℤ
  unfolding float_status fund_if
  provision_with none i = throw gas_treasury_not_configured
  provision_with (some fund) i =
      float_status i.chain >>= λ status. fund_if station.trip fund i status.healthy

  unfoldable pub provision : FundInput → Effect X ℤ
  unfolding provision_with
  provision i = provision_with station.funder i

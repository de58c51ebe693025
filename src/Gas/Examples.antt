-- ===== src/Gas/Examples.antt =====
-- A float of 40 over a floor of 30.
use cixtech.Prelude.{ℕ, suc, ℤ, pos, codes, [], ◌∷◌, some, ◌≡◌, refl, Text-discrete}
use cixtech.Prelude.Dict.{lookup}
use cixtech.Errors.{ok, err}
use cixtech.Effect.{◌>>=◌}
use cixtech.Gas.Station.{
  GasStation, GasStationConfig, FundInput, fund_if, trip_breaker, status_with, float_status,
  provision_with, provision, gas_float_depleted,
}

abbrev config : GasStationConfig
config = record { native_asset = codes "TRX"; floor_base_units = pos 30 }

-- The world outside counts what was done to it.
abbrev station : ℤ → GasStation ℕ
station held = record {
  available = λ chain asset x. (ok held, x);
  configs = (codes "TRON", config) ∷ [];
  funder = some (λ i x. (ok i.min_native_base_units, suc x));
  trip = some (λ chain x. (ok tt, suc x));
}

abbrev input : FundInput
input = record {
  chain = codes "TRON";
  address = codes "T0";
  min_native_base_units = pos 7;
  idempotency_key = codes "k";
}

provided : provision (station (pos 40)) input 0 ≡ (ok (pos 7), 1)
unfolding provision provision_with float_status status_with fund_if trip_breaker ◌>>=◌ lookup
    Text-discrete
provided = refl

depleted : provision (station (pos 20)) input 0 ≡ (err gas_float_depleted, 1)
unfolding provision provision_with float_status status_with fund_if trip_breaker ◌>>=◌ lookup
    Text-discrete
depleted = refl

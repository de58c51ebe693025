-- ===== src/Gas/Station/Provision.antt =====
-- When gas is provided.
use cixtech.Prelude.{ℤ, leb_ℤ, ◌≤ℤ◌, Text, Bool, true, false, Option, none, some, ◌≡◌, refl, arith}
use cixtech.Errors.{Result, ok, err, Error}
use cixtech.Effect.{Effect, >>=-eq-ok}
use cixtech.Gas.Station.{
  GasStation, GasStationConfig, GasFloatStatus, FundInput, fund_if, provision_with, provision,
  float_status, status_with, status_of, config_for,
}

threw :
    {A W : Type 0} {e : Error} {a : A} {w v : W} → ◌≡◌ {A = Result A × W} (err e, w) (ok a, v) → ⊥
threw h = cc

ended :
    {A W : Type 0} {a b : A} {w v : W}
    → ◌≡◌ {A = Result A × W} (ok a, w) (ok b, v)
    → (a ≡ b) × (w ≡ v)
ended h = (cc, cc)

module _ {X : Type 0} where
  status_with-ok :
      (available : (chain native_asset : Text) → Effect X ℤ) (chain : Text)
      (c : Result GasStationConfig) (x u : X) (status : GasFloatStatus)
      → status_with available chain c x ≡ (ok status, u)
      → (config : GasStationConfig) × (balance : ℤ) × (c ≡ ok config)
        × (available chain config.native_asset x ≡ (ok balance, u))
        × (status_of chain config balance ≡ status)
  unfolding status_with
  status_with-ok available chain (err thrown) x u status h = absurd (threw h)
  status_with-ok available chain (ok config) x u status h =
      let (balance, v, asked, last) = >>=-eq-ok _ _ _ _ _ h in
      let (same_status, same_end) = ended last in
      (config, balance, refl, rw (← same_end) asked, same_status)

  fund_if-ok :
      (breaker : Option (Text → Effect X (Unit {0}))) (fund : FundInput → Effect X ℤ)
      (i : FundInput) (healthy : Bool) (x y : X) (funded : ℤ)
      → fund_if breaker fund i healthy x ≡ (ok funded, y)
      → (healthy ≡ true) × (fund i x ≡ (ok funded, y))
  unfolding fund_if
  fund_if-ok breaker fund i true x y funded h = (refl, h)
  fund_if-ok breaker fund i false x y funded h =
      let (_, _, _, last) = >>=-eq-ok _ _ _ _ _ h in absurd (threw last)

module _ {X : Type 0} (station : GasStation X) where
  -- The float of the chain was read as enough, and then the funder returned.
  abbrev pub Provides : FundInput → X → ℤ → X → Type 0
  Provides i x funded y =
      (fund : FundInput → Effect X ℤ) × (config : GasStationConfig) × (balance : ℤ) × (u : X)
      × (station.funder ≡ some fund)
      × (config_for station.configs i.chain ≡ ok config)
      × (station.available i.chain config.native_asset x ≡ (ok balance, u))
      × (config.floor_base_units ≤ℤ balance)
      × (fund i u ≡ (ok funded, y))

  leb_ℤ-true : (a b : ℤ) → leb_ℤ a b ≡ true → a ≤ℤ b
  leb_ℤ-true a b h = ground arith

  provision_with-ok :
      (funder : Option (FundInput → Effect X ℤ)) (i : FundInput) (x y : X) (funded : ℤ)
      → provision_with station funder i x ≡ (ok funded, y)
      → station.funder ≡ funder
      → Provides i x funded y
  unfolding provision_with float_status
  provision_with-ok none i x y funded h same_funder = absurd (threw h)
  provision_with-ok (some fund) i x y funded h same_funder =
      let (status, u, read, funds) = >>=-eq-ok _ _ _ _ _ h in
      let (config, balance, configured, asked, is_status) =
        status_with-ok station.available i.chain (config_for station.configs i.chain) x u status
          read in
      let (healthy, paid) = fund_if-ok station.trip fund i status.healthy u y funded funds in
      let above : leb_ℤ config.floor_base_units balance ≡ true = rw (← is_status) at healthy in
      (
        fund,
        config,
        balance,
        u,
        same_funder,
        configured,
        asked,
        leb_ℤ-true config.floor_base_units balance above,
        paid,
      )

  -- Gas is provided only by a configured funder, on a chain with a configuration, after the float of
  -- the chain was read as at least its floor; and what is returned is what the funder then returned.
  pub provision-Provides :
      (i : FundInput) (x y : X) (funded : ℤ)
      → provision station i x ≡ (ok funded, y)
      → Provides i x funded y
  unfolding provision
  provision-Provides i x y funded h = provision_with-ok station.funder i x y funded h refl

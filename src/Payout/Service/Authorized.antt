-- ===== src/Payout/Service/Authorized.antt =====
-- The requests of a payout at the authorizing broadcaster.
use cixtech.Sweep.{FeeSweepLeg}
use cixtech.Prelude.{ℕ, ◌+◌, ltb, Text, if◌then◌else◌, get_or, some, ◌≡◌, refl, arith}
use cixtech.Errors.{ok, err}
use cixtech.Pool.Types.{GatheredLeg}
use cixtech.Payout.Authorization.{
  Crypto, Signer, Mode, authorize, verify, mint, invalid_authorization,
}
use cixtech.Payout.World.{PayoutParams, Moment, Deps, default_auth_ttl_ms}
use cixtech.Payout.Legs.{leg_request}
use cixtech.Payout.FeeSweep.{fee_request}

-- A request for a leg carries a token that commits to it: with the signer that the service mints
-- with, the authorizing broadcaster takes it, in either mode, until the service's time to live has
-- passed since the call began, and refuses it from then on. A request of the fee sweep carries no
-- token, so a broadcaster that requires one refuses it at any time.
pub authorize-leg_request :
    {S X : Type 0} (c : Crypto) (deps : Deps S X) (signer : Signer)
    → deps.authorizer ≡ some signer
    → (mode : Mode) (m : Moment) (p : PayoutParams) (key : Text) (leg : GatheredLeg)
      (treasury_address fee_key : Text) (fee_leg : FeeSweepLeg) (now : ℕ)
    → (authorize c signer mode (leg_request c deps m p key leg) now ≡ (
        if ltb (m.now + get_or deps.auth_ttl_ms default_auth_ttl_ms) now
        then err invalid_authorization
        else ok tt))
      × (authorize c signer Mode.require (fee_request p treasury_address fee_key fee_leg) now
          ≡ err invalid_authorization)
unfolding authorize verify mint
authorize-leg_request c deps signer h mode m p key leg treasury_address fee_key fee_leg now =
    (rw h (ground arith), refl)

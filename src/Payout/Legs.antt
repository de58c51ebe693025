-- ===== src/Payout/Legs.antt =====
-- The loop of `PayoutService.payout` that sends the legs of a payout.
use cixtech.Prelude.{ℕ, suc, Text, codes, get_or, ◌++◌, List, [], ◌∷◌, Option, none, some}
use cixtech.Prelude.Decimal.{int_text, nat_text}
use cixtech.Pool.Types.{GatheredLeg}
use cixtech.Payout.Types.{PayoutRequest, AuthorizationToken}
use cixtech.Payout.Authorization.{Crypto, transfer_commitment, mint}
use cixtech.Effect.{Effect, ◌>>=◌, ◌>>◌, done}
use cixtech.Payout.World.{
  PayoutParams, PayoutLeg, PrepareGatherInput, Moment, Engine, Deps, default_auth_ttl_ms,
}
use cixtech.Payout.Calls.{send, prepare}

-- `legs.length === 1 ? key : key:i`
abbrev pub leg_key : Text → List GatheredLeg → ℕ → Text
leg_key key (leg ∷ []) i = key
leg_key key legs i = key ++ (codes ":" ++ nat_text i)

abbrev pub primary_from : List GatheredLeg → Text
primary_from [] = []
primary_from (leg ∷ legs) = leg.source.address

abbrev pub primary_tx_id : List PayoutLeg → Text
primary_tx_id [] = []
primary_tx_id (leg ∷ legs) = leg.tx_id

-- `if (sent.length > 1) result.legs = sent;`
abbrev pub listed_legs : List PayoutLeg → Option (List PayoutLeg)
listed_legs [] = none
listed_legs (leg ∷ []) = none
listed_legs (leg ∷ next ∷ legs) = some (leg ∷ next ∷ legs)

module _ {S X : Type 0} (c : Crypto) (deps : Deps S X) where
  abbrev pub authorization_of :
      Moment → PayoutParams → Text → GatheredLeg → Option AuthorizationToken
  authorization_of m p key leg = elim deps.authorizer [
    | none ↦ none
    | some signer ↦ some (
        mint c signer
          (record {
            intent_id = key;
            tenant = p.tenant;
            merchant = p.merchant;
            chain = p.chain;
            asset = p.asset;
            amount = int_text leg.amount_base_units;
            destination = p.destination;
            sighash = transfer_commitment c (record {
              intent_id = key;
              chain = p.chain;
              asset = p.asset;
              amount = int_text leg.amount_base_units;
              destination = p.destination;
              from_address = leg.source.address;
            });
            approvals = get_or p.approvals [];
          })
          m.now (get_or deps.auth_ttl_ms default_auth_ttl_ms))
  ]

  abbrev pub leg_request : Moment → PayoutParams → Text → GatheredLeg → PayoutRequest
  leg_request m p key leg = record {
    chain = p.chain;
    asset = p.asset;
    amount_base_units = leg.amount_base_units;
    from_address = leg.source.address;
    from_derivation_index = leg.source.derivation_index;
    to_address = p.destination;
    idempotency_key = some key;
    authorization = authorization_of m p key leg;
  }

  abbrev pub leg_preparation : PayoutParams → Text → GatheredLeg → PrepareGatherInput
  leg_preparation p key leg = record {
    chain = p.chain;
    address = leg.source.address;
    derivation_index = leg.source.derivation_index;
    asset = p.asset;
    amount_base_units = leg.amount_base_units;
    idempotency_key = key;
  }

  -- `sent.push(…)`, before what the rest of the loop sends.
  abbrev pub push_leg :
      GatheredLeg
      → Effect (Engine S X) (List PayoutLeg)
      → Text
      → Effect (Engine S X) (List PayoutLeg)
  push_leg leg rest tx_id = rest >>= λ sent. done (
      record {
        address = leg.source.address;
        tx_id = tx_id;
        amount_base_units = leg.amount_base_units;
      }
      ∷ sent)

  -- The loop over the legs, from the i-th on, where `key_of` gives the key of each.
  unfoldable pub send_legs :
      Moment
      → PayoutParams
      → (ℕ → Text)
      → ℕ
      → List GatheredLeg
      → Effect (Engine S X) (List PayoutLeg)
  unfolding prepare send
  send_legs m p key_of i [] = done []
  send_legs m p key_of i (leg ∷ legs) =
      let rest = send_legs m p key_of (suc i) legs in
      prepare deps leg.source.gather_strategy (leg_preparation p (key_of i) leg)
      >> send deps (leg_request m p (key_of i) leg)
      >>= push_leg leg rest

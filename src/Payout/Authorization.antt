-- ===== src/Payout/Authorization.antt =====
-- backend/src/chains/payout/authorization.ts, authorizing-broadcaster.ts and
-- internal-authorization.ts. The hash, the keyed hash, `JSON.stringify` of the claims and the
-- decoding of hexadecimal digits are Node's, and parameters here.
pub mod Binding
use cixtech.Prelude.{
  ℕ, ◌+◌, ◌*◌, ℤ, ltb, ◌==◌, suc, Text, codes, same, if◌then◌else◌, get_or, ◌||◌, ◌++◌, not, Bool,
  true, false, List, [], ◌∷◌, Option, none, some,
}
use cixtech.Prelude.Decimal.{int_text}
use cixtech.Errors.{Result, ok, err, Error, ErrorCode, ◌>>=◌, ◌>>◌, throw_if}
use cixtech.Payout.Types.{AuthorizationClaims, AuthorizationToken, TransferIdentity, PayoutRequest}

pub record Crypto : Type 0 where
  -- `createHash("sha256").update(text).digest("hex")`
  pub sha256_hex : Text → Text
  -- `createHmac("sha256", key).update(text).digest("hex")`
  pub hmac_hex : (key text : Text) → Text
  -- `JSON.stringify` of the object that `canonical` lists, in its order of keys.
  pub json : AuthorizationClaims → Text
  -- `Buffer.from(text, "hex")`
  pub from_hex : Text → List ℕ

abbrev pub invalid_authorization : Error
invalid_authorization = Error.app ErrorCode.authorization_invalid

-- `parts.join("\0")`
unfoldable pub join_nul : List Text → Text
join_nul [] = []
join_nul (part ∷ []) = part
join_nul (part ∷ next ∷ parts) = part ++ (0 ∷ join_nul (next ∷ parts))

abbrev pub identity_parts : TransferIdentity → List Text
identity_parts t = t.intent_id ∷ t.chain ∷ t.asset ∷ t.amount ∷ t.destination ∷ t.from_address ∷ []

-- `AuthorizationSigner`
pub record Signer : Type 0 where
  pub policy_key : Text
  pub policy_version : Text

-- `Omit<AuthorizationClaims, "policyVersion" | "decidedAt" | "expiresAt">`
pub record MintInput : Type 0 where
  pub intent_id : Text
  pub tenant : Text
  pub merchant : Text
  pub chain : Text
  pub asset : Text
  pub amount : Text
  pub destination : Text
  pub sighash : Text
  pub approvals : List Text

abbrev pub claims_of : MintInput → Text → (now ttl_ms : ℕ) → AuthorizationClaims
claims_of i version now ttl_ms = record {
  intent_id = i.intent_id;
  tenant = i.tenant;
  merchant = i.merchant;
  chain = i.chain;
  asset = i.asset;
  amount = i.amount;
  destination = i.destination;
  sighash = i.sighash;
  policy_version = version;
  approvals = i.approvals;
  decided_at = now;
  expires_at = now + ttl_ms;
}

abbrev pub byte_count : List ℕ → ℕ
byte_count [] = 0
byte_count (_ ∷ bytes) = suc (byte_count bytes)

-- `opts.expectedSighash !== undefined && opts.expectedSighash !== token.claims.sighash`
abbrev pub sighash_differs : Option Text → AuthorizationToken → Bool
sighash_differs none token = false
sighash_differs (some expected) token = not (same expected token.claims.sighash)

pub data Mode : Type 0 where
  require optional : Mode

-- What `send` of the authorizing broadcaster derives from the request.
abbrev pub identity_of : PayoutRequest → AuthorizationToken → TransferIdentity
identity_of req token = record {
  intent_id = token.claims.intent_id;
  chain = req.chain;
  asset = req.asset;
  amount = int_text req.amount_base_units;
  destination = req.to_address;
  from_address = req.from_address;
}

abbrev pub internal_auth_ttl_ms : ℕ
internal_auth_ttl_ms = 5 * 60_000

-- The transfer that `mintInternalAuthorization` is given.
pub record InternalTransfer : Type 0 where
  pub intent_id : Text
  pub chain : Text
  pub asset : Text
  pub amount_base_units : ℤ
  pub from_address : Text
  pub to_address : Text
  pub purpose : Text

module _ (c : Crypto) where
  unfoldable pub transfer_commitment : TransferIdentity → Text
  unfolding join_nul
  transfer_commitment t = c.sha256_hex (join_nul (identity_parts t))

  -- `hmac`, with `canonical` under it.
  abbrev pub hmac : Signer → AuthorizationClaims → Text
  hmac signer claims = c.hmac_hex signer.policy_key (c.json claims)

  unfoldable pub mint : Signer → MintInput → (now ttl_ms : ℕ) → AuthorizationToken
  mint signer input now ttl_ms =
      let claims = claims_of input signer.policy_version now ttl_ms in
      record { claims = claims; signature = hmac signer claims }

  -- The two buffers differ in their length or, compared in constant time, in their bytes.
  abbrev pub signature_differs : Signer → AuthorizationToken → Bool
  signature_differs signer token =
      let a = c.from_hex (hmac signer token.claims) in
      let b = c.from_hex token.signature in not (byte_count a == byte_count b) || not (same a b)

  unfoldable pub verify : Signer → AuthorizationToken → ℕ → Option Text → Result AuthorizationClaims
  verify signer token now expected_sighash =
      throw_if (signature_differs signer token) invalid_authorization
      >> throw_if (ltb token.claims.expires_at now) invalid_authorization
      >> throw_if (sighash_differs expected_sighash token) invalid_authorization
      >> ok token.claims

  -- `AuthorizingBroadcaster.send`: the checks it makes before it hands the request on.
  unfoldable pub authorize : Signer → Mode → PayoutRequest → ℕ → Result (Unit {0})
  unfolding verify transfer_commitment
  authorize signer mode req now = elim req.authorization [
    | none ↦ elim mode [ Mode.require ↦ err invalid_authorization | Mode.optional ↦ ok tt ]
    | some token ↦
        verify signer token now (some (transfer_commitment (identity_of req token))) >> ok tt
  ]

  -- The broadcaster around another, whose state is that of the world outside.
  unfoldable pub authorizing_send :
      {X : Type 0}
      → Signer
      → Mode
      → ℕ
      → (PayoutRequest → X → Result Text × X)
      → PayoutRequest
      → X
      → Result Text × X
  unfolding authorize
  authorizing_send signer mode now send req x = elim (authorize signer mode req now) [
    | err thrown ↦ (err thrown, x)
    | ok _ ↦ send req x
  ]

  unfoldable pub mint_internal_authorization :
      Signer → InternalTransfer → (now ttl_ms : ℕ) → AuthorizationToken
  unfolding mint transfer_commitment
  mint_internal_authorization signer t now ttl_ms =
      mint signer
        (record {
          intent_id = t.intent_id;
          tenant = codes "engine";
          merchant = t.purpose;
          chain = t.chain;
          asset = t.asset;
          amount = int_text t.amount_base_units;
          destination = t.to_address;
          sighash = transfer_commitment (record {
            intent_id = t.intent_id;
            chain = t.chain;
            asset = t.asset;
            amount = int_text t.amount_base_units;
            destination = t.to_address;
            from_address = t.from_address;
          });
          approvals = [];
        })
        now ttl_ms

-- ===== src/Payout/Authorization/Binding.antt =====
-- A commitment determines the transfer: the parts are joined with a unit that none of them has.
use cixtech.Prelude.{
  ℕ, ◌+◌, ◌≤◌, ltb, if◌then◌else◌, ◌||◌, ◌↔◌, Text, same, ◌++◌, not, [], ◌∷◌, some, ◌≡◌, refl,
  arith, ap,
}
use cixtech.Prelude.Decimal.{AllFrom}
use cixtech.Errors.{ok, err}
use cixtech.Payout.Types.{TransferIdentity, PayoutRequest, AuthorizationToken}
use cixtech.Payout.Authorization.{
  Crypto, Signer, Mode, MintInput, join_nul, identity_parts, identity_of, transfer_commitment, mint,
  invalid_authorization, verify, authorize, int_text,
}

split_nul :
    (a b s t : Text) → AllFrom 1 a → AllFrom 1 b → a ++ (0 ∷ s) ≡ b ++ (0 ∷ t) → (a ≡ b) × (s ≡ t)
split_nul [] [] s t p q h = (refl, cc)
split_nul [] (y ∷ b) s t p q h = absurd (ground arith)
split_nul (x ∷ a) [] s t p q h = absurd (ground arith)
split_nul (x ∷ a) (y ∷ b) s t p q h =
    let tails : a ++ (0 ∷ s) ≡ b ++ (0 ∷ t) = cc in
    let heads : x ≡ y = cc in let (e, f) = split_nul a b s t p.1 q.1 tails in (cc, f)

-- No text of the transfer has the unit 0.
pub record AreParts (t : TransferIdentity) : Type 0 where
  pub intent_id : AllFrom 1 t.intent_id
  pub chain : AllFrom 1 t.chain
  pub asset : AllFrom 1 t.asset
  pub amount : AllFrom 1 t.amount
  pub destination : AllFrom 1 t.destination

join_nul-injective :
    (t u : TransferIdentity)
    → AreParts t
    → AreParts u
    → join_nul (identity_parts t) ≡ join_nul (identity_parts u)
    → t ≡ u
unfolding join_nul
join_nul-injective t u p q h =
    let (e1, h1) = split_nul _ _ _ _ p.intent_id q.intent_id h in
    let (e2, h2) = split_nul _ _ _ _ p.chain q.chain h1 in
    let (e3, h3) = split_nul _ _ _ _ p.asset q.asset h2 in
    let (e4, h4) = split_nul _ _ _ _ p.amount q.amount h3 in
    let (e5, h5) = split_nul _ _ _ _ p.destination q.destination h4 in ground arith

module _ (c : Crypto) (signer : Signer) where
  verify-sighash :
      (token : AuthorizationToken) (now : ℕ) (expected : Text)
      → verify c signer token now (some expected) ≡ ok token.claims
      → (now ≤ token.claims.expires_at) × (expected ≡ token.claims.sighash)
  unfolding verify
  verify-sighash token now expected h = ground arith

  -- The transfer that the token was minted for.
  abbrev pub IsFor : MintInput → TransferIdentity → Type 0
  IsFor i t = (i.sighash ≡ transfer_commitment c t) × (i.intent_id ≡ t.intent_id)

  -- A token is checked against the request alone: it is current and commits to it.
  authorize-mint :
      (i : MintInput) (minted ttl_ms : ℕ) (mode : Mode) (req : PayoutRequest) (now : ℕ)
      → req.authorization ≡ some (mint c signer i minted ttl_ms)
      → authorize c signer mode req now ≡ (
          if ltb (minted + ttl_ms) now
            || not (
                same
                  (transfer_commitment c (identity_of req (mint c signer i minted ttl_ms)))
                  i.sighash)
          then err invalid_authorization
          else ok tt)
  unfolding authorize verify mint
  authorize-mint i minted ttl_ms mode req now h = rw h (ground arith)

  -- The request pays what the transfer says, from and to where it says. The intent is not among
  -- the fields of a request that are compared.
  pub record IsPaid (req : PayoutRequest) (t : TransferIdentity) : Type 0 where
    pub chain : req.chain ≡ t.chain
    pub asset : req.asset ≡ t.asset
    pub amount : int_text req.amount_base_units ≡ t.amount
    pub destination : req.to_address ≡ t.destination
    pub sender : req.from_address ≡ t.from_address

  same_identity :
      (i : MintInput) (t : TransferIdentity) (minted ttl_ms : ℕ) (req : PayoutRequest)
      → IsFor i t
      → IsPaid req t
      → identity_of req (mint c signer i minted ttl_ms) ≡ t
  unfolding mint
  same_identity i t minted ttl_ms req for paid =
      rw (for.1, paid.chain, paid.asset, paid.amount, paid.destination, paid.sender) refl

  -- A request with a token that was minted for a transfer passes the check, in either mode, exactly
  -- when the token has not expired and the request is for the chain, asset, amount, destination and
  -- sender of that transfer. The intent of the transfer is the one that the token names; a request
  -- has none to compare it with, and its idempotency key is not looked at. The texts of both
  -- transfers are free of the unit 0 that joins them, and the hash does not take the two joined texts
  -- to the same digits unless they are equal.
  pub authorize-mint_iff :
      (i : MintInput) (t : TransferIdentity) (minted ttl_ms : ℕ) (mode : Mode) (req : PayoutRequest)
      (now : ℕ)
      → IsFor i t
      → req.authorization ≡ some (mint c signer i minted ttl_ms)
      → let u = identity_of req (mint c signer i minted ttl_ms) in
        AreParts t
        → AreParts u
        → (c.sha256_hex (join_nul (identity_parts u)) ≡ c.sha256_hex (join_nul (identity_parts t))
            → join_nul (identity_parts u) ≡ join_nul (identity_parts t))
        → (authorize c signer mode req now ≡ ok tt) ↔ ((now ≤ minted + ttl_ms) × IsPaid req t)
  unfolding transfer_commitment
  authorize-mint_iff i t minted ttl_ms mode req now for h p q collides =
      let u = identity_of req (mint c signer i minted ttl_ms) in
      let checked = authorize-mint i minted ttl_ms mode req now h in
      (
        λ passed.
            let e =
              join_nul-injective u t q p (collides (ground (arith, checked, passed, for.0))) in
            (
              ground (arith, checked, passed),
              record {
                chain = ap TransferIdentity.chain e;
                asset = ap TransferIdentity.asset e;
                amount = ap TransferIdentity.amount e;
                destination = ap TransferIdentity.destination e;
                sender = ap TransferIdentity.from_address e;
              },
            ),
        λ both.
            let e : u ≡ t = same_identity i t minted ttl_ms req for both.1 in
            rw checked (ground (arith, both.0, ap (transfer_commitment c) e, for.0)),
      )

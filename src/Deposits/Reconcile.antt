-- ===== src/Deposits/Reconcile.antt =====
-- `ExternalReconciler` of backend/src/chains/reconcile/external-reconciler.ts. The groups of
-- addresses, the balances that a second source reads and the breaker are the world outside; each of
-- their calls may fail. The assets are the list that the constructor is given. The reason that the
-- breaker is tripped with is left out.
pub mod Rows
pub mod Complete
use cixtech.Prelude.{
  ℕ, ℤ, pos, ◌+ℤ◌, eqb_ℤ, if◌then◌else◌, Text, codes, ◌++◌, Bool, true, false, List, [], ◌∷◌,
  Option, none, some, inl, inr,
}
use cixtech.Errors.{Result, ok, err}
use cixtech.Effect.{Effect, ◌>>=◌, ◌>>◌, done}

pub record PoolGroup : Type 0 where
  pub tenant : Text
  pub merchant : Text
  pub chain : Text
  pub addresses : List Text

pub record ExternalDriftRow : Type 0 where
  pub tenant : Text
  pub merchant : Text
  pub chain : Text
  pub asset : Text
  pub ledger : ℤ
  pub on_chain : ℤ

pub record ExternalReconResult : Type 0 where
  pub drift : List ExternalDriftRow
  pub tripped : Bool

-- What the constructor is given: the balance of a ledger account, the groups, the balance that the
-- independent source reads, and the breaker.
pub record Reconciler (X : Type 0) : Type 0 where
  pub get_balance : (account asset : Text) → Effect X ℤ
  pub pool_groups : Effect X (List PoolGroup)
  pub balance : (chain address asset : Text) → Effect X ℤ
  pub assets : List Text
  pub trip : Option (List ExternalDriftRow → Effect X (Unit {0}))

abbrev pub pool_account : PoolGroup → Text
pool_account g = codes "pool_addr:" ++ (g.chain ++ (codes ":" ++ g.merchant))

-- `if (ledgerBal !== onChain) drift.push({ … })`
unfoldable pub drift_row : PoolGroup → Text → ℤ → ℤ → List ExternalDriftRow
drift_row g asset ledger on_chain =
    if eqb_ℤ ledger on_chain
    then []
    else (record {
      tenant = g.tenant;
      merchant = g.merchant;
      chain = g.chain;
      asset = asset;
      ledger = ledger;
      on_chain = on_chain;
    }
        ∷ [])

-- `drift.length > 0 && this.breaker`
unfoldable pub trip_on :
    {X : Type 0}
    → Option (List ExternalDriftRow → Effect X (Unit {0}))
    → List ExternalDriftRow
    → Effect X ExternalReconResult
trip_on breaker [] = done (record { drift = []; tripped = false })
trip_on none (row ∷ rows) = done (record { drift = row ∷ rows; tripped = false })
trip_on (some trip) (row ∷ rows) =
    trip (row ∷ rows) >> done (record { drift = row ∷ rows; tripped = true })

module _ {X : Type 0} (r : Reconciler X) where
  unfoldable pub on_chain_sum : Text → Text → ℤ → List Text → Effect X ℤ
  on_chain_sum chain asset sum [] = done sum
  on_chain_sum chain asset sum (address ∷ addresses) =
      r.balance chain address asset >>= λ held. on_chain_sum chain asset (sum +ℤ held) addresses

  unfoldable pub compare : PoolGroup → Text → Effect X (List ExternalDriftRow)
  compare g asset = r.get_balance (pool_account g) asset >>= λ ledger.
      on_chain_sum g.chain asset (pos 0) g.addresses >>= λ on_chain.
      done (drift_row g asset ledger on_chain)

  unfoldable pub compare_assets : PoolGroup → List Text → Effect X (List ExternalDriftRow)
  compare_assets g [] = done []
  compare_assets g (asset ∷ assets) =
      let rest = compare_assets g assets in
      compare g asset >>= λ first. rest >>= λ others. done (first ++ others)

  unfoldable pub compare_groups : List PoolGroup → Effect X (List ExternalDriftRow)
  compare_groups [] = done []
  compare_groups (g ∷ groups) =
      let rest = compare_groups groups in
      compare_assets g r.assets >>= λ first. rest >>= λ others. done (first ++ others)

  unfoldable pub run : Effect X ExternalReconResult
  run = r.pool_groups >>= compare_groups >>= trip_on r.trip

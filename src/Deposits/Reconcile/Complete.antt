-- ===== src/Deposits/Reconcile/Complete.antt =====
-- What a reconciliation finds.
use mathlib.Core.List.{Memᴰ}
use cixtech.Prelude.{
  none, some, false, Option, ℤ, pos, ◌+ℤ◌, sum_ℤ, int_laws, Text, true, List, [], ◌∷◌, ◌≡◌, refl,
  inl, inr, ◌↔◌, map, +ℤ_assoc, zero_+ℤ, ◌⊎◌,
}
use cixtech.Errors.{Error, err, Result, ok}
use cixtech.Effect.{Effect, >>=-split, done, ◌>>=◌}
use cixtech.Deposits.Reconcile.{
  ExternalReconResult, PoolGroup, ExternalDriftRow, Reconciler, pool_account, on_chain_sum, compare,
  compare_assets, compare_groups, trip_on, run, false, Option, Effect, ExternalReconResult, some,
}
use cixtech.Deposits.Reconcile.Rows.{on_chain, row, rows, drifts, Drifted, drifts-Drifted}

+ℤ_zero : (a : ℤ) → a +ℤ pos 0 ≡ a
+ℤ_zero a = omega int_laws

module _ (ledger : (account asset : Text) → ℤ) (held : (chain address asset : Text) → ℤ) where
  -- In this state of the world every read answers with the two functions and changes nothing.
  pub record IsQuiet {X : Type 0} (r : Reconciler X) (groups : List PoolGroup) (x : X)
      : Type 0 where
    pub groups_read : r.pool_groups x ≡ (ok groups, x)
    pub ledger_read :
        (account asset : Text) → r.get_balance account asset x ≡ (ok (ledger account asset), x)
    pub chain_read :
        (chain address asset : Text)
        → r.balance chain address asset x ≡ (ok (held chain address asset), x)

  module _ {X : Type 0} (r : Reconciler X) (groups : List PoolGroup) (x : X)
      (quiet : IsQuiet r groups x) where
    on_chain_sum-quiet :
        (chain asset : Text) (sum : ℤ) (addresses : List Text)
        → on_chain_sum r chain asset sum addresses x
          ≡ (ok (sum +ℤ sum_ℤ (map (λ address. held chain address asset) addresses)), x)
    unfolding on_chain_sum ◌>>=◌
    on_chain_sum-quiet chain asset sum [] = rw (+ℤ_zero sum) refl
    on_chain_sum-quiet chain asset sum (a ∷ addresses) =
        rw
          (
            quiet.chain_read chain a asset,
            on_chain_sum-quiet chain asset (sum +ℤ held chain a asset) addresses,
          )
          (rw
            (+ℤ_assoc sum (held chain a asset)
              (sum_ℤ (map (λ address. held chain address asset) addresses)))
            refl)

    compare-quiet :
        (g : PoolGroup) (asset : Text) → compare r g asset x ≡ (ok (row ledger held g asset), x)
    unfolding compare ◌>>=◌
    compare-quiet g asset =
        rw
          (
            quiet.ledger_read (pool_account g) asset,
            on_chain_sum-quiet g.chain asset (pos 0) g.addresses,
            zero_+ℤ (on_chain ledger held g asset),
          )
          refl

    compare_assets-quiet :
        (g : PoolGroup) (assets : List Text)
        → compare_assets r g assets x ≡ (ok (rows ledger held g assets), x)
    unfolding compare_assets ◌>>=◌
    compare_assets-quiet g [] = refl
    compare_assets-quiet g (a ∷ assets) = rw (compare-quiet g a, compare_assets-quiet g assets) refl

    compare_groups-quiet :
        (gs : List PoolGroup) → compare_groups r gs x ≡ (ok (drifts ledger held r.assets gs), x)
    unfolding compare_groups ◌>>=◌
    compare_groups-quiet [] = refl
    compare_groups-quiet (g ∷ gs) =
        rw (compare_assets-quiet g r.assets, compare_groups-quiet gs) refl

    -- What is done about the rows: nothing where there are none or no breaker, else the breaker is
    -- called with them, and what it throws is thrown.
    abbrev pub Reports :
        Option (List ExternalDriftRow → Effect X (Unit {0}))
        → List ExternalDriftRow
        → Result ExternalReconResult × X
        → Type 0
    Reports none found r = r ≡ (ok (record { drift = found; tripped = false }), x)
    Reports (some trip) [] r = r ≡ (ok (record { drift = []; tripped = false }), x)
    Reports (some trip) (d ∷ found) r =
        ((trip (d ∷ found) x).0 ≡ ok tt
          × (r ≡ (ok (record { drift = d ∷ found; tripped = true }), (trip (d ∷ found) x).1)))
        ⊎ ((e : Error) × ((trip (d ∷ found) x).0 ≡ err e) × (r ≡ (err e, (trip (d ∷ found) x).1)))

    trip_on-Reports :
        (breaker : Option (List ExternalDriftRow → Effect X (Unit {0})))
        (found : List ExternalDriftRow)
        → Reports breaker found (trip_on breaker found x)
    unfolding trip_on
    trip_on-Reports none [] = refl
    trip_on-Reports none (d ∷ found) = refl
    trip_on-Reports (some trip) [] = refl
    trip_on-Reports (some trip) (d ∷ found) =
        let tripped : ExternalReconResult = record { drift = d ∷ found; tripped = true } in
        elim (>>=-split (trip (d ∷ found)) (λ _. done tripped) x) [
          | inl (e, thrown, whole) ↦ inr (e, thrown, whole)
          | inr (_, fine, whole) ↦ inl (fine, whole)
        ]

    -- Where the reads answer and change nothing, a reconciliation finds exactly a row for each of its
    -- groups and assets for which the ledger's balance of the group's pool account is not the sum that
    -- the second source holds for the addresses of the group, with the two amounts. It returns the rows
    -- untripped where there are none or no breaker. Else it calls the breaker with them, and returns
    -- them as tripped or throws what the breaker throws.
    pub run_reconciled :
        (found : List ExternalDriftRow) × ((d : ExternalDriftRow)
          → Memᴰ d found ↔ Drifted ledger held r.assets groups d)
        × Reports r.trip found (run r x)
    unfolding run ◌>>=◌
    run_reconciled = (
      drifts ledger held r.assets groups,
      drifts-Drifted ledger held r.assets groups,
      rw (quiet.groups_read, compare_groups-quiet groups)
          (trip_on-Reports r.trip (drifts ledger held r.assets groups)),
    )

-- ===== src/Deposits/Reconcile/Rows.antt =====
-- The rows of a reconciliation.
use mathlib.Core.List.{Memᴰ}
use mathlib.Core.List.Memᴰ
use cixtech.Prelude.{
  false, codes, subst, sym, ◌∙◌, ℤ, eqb_ℤ, sum_ℤ, eq_of_parts, Text, ◌++◌, true, Bool-cases, List,
  [], ◌∷◌, ◌≡◌, refl, inl, inr, ◌↔◌, map, arith, ◌⊎◌, ◌≢◌, ◌∙◌, subst, sym,
}
use cixtech.Deposits.Reconcile.{PoolGroup, ExternalDriftRow, pool_account, drift_row, false, codes}

eqb_ℤ-true : (a b : ℤ) → eqb_ℤ a b ≡ true → a ≡ b
eqb_ℤ-true a b h = eq_of_parts a b (ground arith)

eqb_ℤ-refl : (a : ℤ) → eqb_ℤ a a ≡ true
eqb_ℤ-refl a = ground arith

eqb_ℤ-false : (a b : ℤ) → eqb_ℤ a b ≡ false → a ≢ b
eqb_ℤ-false a b h e = absurd (let t : eqb_ℤ a b ≡ true = rw e (eqb_ℤ-refl b) in cc)

member-append : {A : Type 0} {a : A} (xs ys : List A) → Memᴰ a (xs ++ ys) ↔ (Memᴰ a xs ⊎ Memᴰ a ys)
member-append xs ys = (
  Memᴰ.append_cases xs,
  λ h. elim h [ inl m ↦ Memᴰ.append_left ys m | inr m ↦ Memᴰ.append_right xs m ],
)

module _ (ledger : (account asset : Text) → ℤ) (held : (chain address asset : Text) → ℤ) where
  -- What the chain holds for a group.
  abbrev pub on_chain : PoolGroup → Text → ℤ
  on_chain g asset = sum_ℤ (map (λ address. held g.chain address asset) g.addresses)

  abbrev pub Agrees : PoolGroup → Text → Type 0
  Agrees g asset = ledger (pool_account g) asset ≡ on_chain g asset

  abbrev pub row : PoolGroup → Text → List ExternalDriftRow
  row g asset = drift_row g asset (ledger (pool_account g) asset) (on_chain g asset)

  abbrev pub rows : PoolGroup → List Text → List ExternalDriftRow
  rows g [] = []
  rows g (asset ∷ assets) = row g asset ++ rows g assets

  abbrev pub drifts : List Text → List PoolGroup → List ExternalDriftRow
  drifts assets [] = []
  drifts assets (g ∷ groups) = rows g assets ++ drifts assets groups

  -- A row for a group and an asset whose two amounts differ: the ledger's and the chain's.
  pub record IsDrift (g : PoolGroup) (token : Text) (d : ExternalDriftRow) : Type 0 where
    pub tenant : d.tenant ≡ g.tenant
    pub merchant : d.merchant ≡ g.merchant
    pub chain : d.chain ≡ g.chain
    pub asset : d.asset ≡ token
    pub ledger_amount :
        d.ledger ≡ ledger (codes "pool_addr:" ++ (g.chain ++ (codes ":" ++ g.merchant))) token
    pub chain_amount : d.on_chain ≡ on_chain g token
    pub differ : d.ledger ≢ d.on_chain

  expected : PoolGroup → Text → ExternalDriftRow
  expected g token = record {
    tenant = g.tenant;
    merchant = g.merchant;
    chain = g.chain;
    asset = token;
    ledger = ledger (pool_account g) token;
    on_chain = on_chain g token;
  }

  expected-IsDrift :
      (g : PoolGroup) (token : Text) (d : ExternalDriftRow)
      → ledger (pool_account g) token ≢ on_chain g token
      → d ≡ expected g token
      → IsDrift g token d
  unfolding expected
  expected-IsDrift g token d n e = record {
    tenant = rw e refl;
    merchant = rw e refl;
    chain = rw e refl;
    asset = rw e refl;
    ledger_amount = rw e refl;
    chain_amount = rw e refl;
    differ = rw e n;
  }

  IsDrift-expected :
      (g : PoolGroup) (token : Text) (d : ExternalDriftRow)
      → IsDrift g token d
      → d ≡ expected g token
  unfolding expected
  IsDrift-expected g token d p =
      rw (p.tenant, p.merchant, p.chain, p.asset, p.ledger_amount, p.chain_amount) refl

  row-IsDrift :
      (g : PoolGroup) (token : Text) (d : ExternalDriftRow)
      → Memᴰ d (row g token) ↔ IsDrift g token d
  unfolding drift_row expected
  row-IsDrift g token d =
      let l = ledger (pool_account g) token in
      let o = on_chain g token in
      elim (Bool-cases (eqb_ℤ l o)) [
        | inl same ↦ rw same (
          λ m. absurd (Memᴰ.not-nil m),
          λ p. absurd (p.differ (p.ledger_amount ∙ eqb_ℤ-true l o same ∙ sym p.chain_amount)),
        )
        | inr different ↦ rw different (
          λ m. elim (Memᴰ.cases_cons m) [
            | inl e ↦ expected-IsDrift g token d (eqb_ℤ-false l o different) e
            | inr m ↦ absurd (Memᴰ.not-nil m)
          ],
          λ p. Memᴰ.head (IsDrift-expected g token d p),
        )
      ]

  pub rows-IsDrift :
      (g : PoolGroup) (assets : List Text) (d : ExternalDriftRow)
      → Memᴰ d (rows g assets) ↔ ((a : Text) × Memᴰ a assets × IsDrift g a d)
  rows-IsDrift g [] d = (λ m. absurd (Memᴰ.not-nil m), λ (a, m, p). absurd (Memᴰ.not-nil m))
  rows-IsDrift g (b ∷ assets) d = (
    λ m. elim ((member-append (row g b) (rows g assets)).0 m) [
      | inl here ↦ (b, Memᴰ.head refl, (row-IsDrift g b d).0 here)
      | inr there ↦ let (a, m, p) = (rows-IsDrift g assets d).0 there in (a, Memᴰ.tail m, p)
    ],
    λ (a, m, p). (member-append (row g b) (rows g assets)).1 (elim (Memᴰ.cases_cons m) [
      | inl e ↦ inl ((row-IsDrift g b d).1 (subst (λ (t : Text). IsDrift g t d) e p))
      | inr later ↦ inr ((rows-IsDrift g assets d).1 (a, later, p))
    ]),
  )

  -- Some group and asset disagree by the row.
  abbrev pub Drifted : List Text → List PoolGroup → ExternalDriftRow → Type 0
  Drifted assets groups d =
      (g : PoolGroup) × Memᴰ g groups × ((a : Text) × Memᴰ a assets × IsDrift g a d)

  pub drifts-Drifted :
      (assets : List Text) (groups : List PoolGroup) (d : ExternalDriftRow)
      → Memᴰ d (drifts assets groups) ↔ Drifted assets groups d
  drifts-Drifted assets [] d = (λ m. absurd (Memᴰ.not-nil m), λ (a, m, p). absurd (Memᴰ.not-nil m))
  drifts-Drifted assets (k ∷ groups) d = (
    λ m. elim ((member-append (rows k assets) (drifts assets groups)).0 m) [
      | inl here ↦ (k, Memᴰ.head refl, (rows-IsDrift k assets d).0 here)
      | inr there ↦ let (g, m, p) = (drifts-Drifted assets groups d).0 there in (g, Memᴰ.tail m, p)
    ],
    λ (g, m, p).
        (member-append (rows k assets) (drifts assets groups)).1 (elim (Memᴰ.cases_cons m) [
          | inl e ↦ inl (
              (rows-IsDrift k assets d).1
                (subst (λ (t : PoolGroup). (a : Text) × Memᴰ a assets × IsDrift t a d) e p))
          | inr later ↦ inr ((drifts-Drifted assets groups d).1 (g, later, p))
        ]),
  )

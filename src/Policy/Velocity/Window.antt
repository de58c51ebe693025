-- ===== src/Policy/Velocity/Window.antt =====
-- The velocity limit over time. The table is pruned at every payout, so the limit is stated on the
-- list of all the payouts that were admitted.
use cixtech.Prelude.{
  ℕ, ℤ, pos, ◌+ℤ◌, ◌≤ℤ◌, int_laws, ◌+◌, ◌≤◌, leb, if◌then◌else◌, ◌&&◌, not, false, Bool-cases, inl,
  inr, List, [], ◌∷◌, ◌≡◌, refl, arith,
}
use cixtech.Errors.{ok}
use cixtech.Policy.Types.{PayoutContext, VelocityConfig}
use cixtech.Policy.Velocity.{
  PayoutLogRow, in_window, counts_for, spent_since, prune, recorded, admit,
}

-- The tables that calls of `admit` reach from the empty one, with the payouts admitted so far and
-- the time of the last. The clock does not run back, and the policy passes positive amounts. A
-- call that throws changes nothing.
pub data Run (config : VelocityConfig) : List PayoutLogRow → List PayoutLogRow → ℕ → Type 0 where
  start : Run config [] [] 0
  step :
      (ctx : PayoutContext) (now last : ℕ) (rows rows' past : List PayoutLogRow)
      → Run config rows past last
      → last ≤ now
      → pos 0 ≤ℤ ctx.amount_base_units
      → admit config ctx now rows ≡ ok rows'
      → Run config rows' (recorded ctx now ∷ past) now

-- What was spent from the time `from` up to the end of the window that begins there.
abbrev pub spent_within : VelocityConfig → PayoutContext → ℕ → List PayoutLogRow → ℤ
spent_within config ctx from [] = pos 0
spent_within config ctx from (r ∷ rows) =
    let rest = spent_within config ctx from rows in
    if counts_for ctx r && (leb from r.spend.at && leb r.spend.at (from + config.window_ms))
    then r.spend.amount +ℤ rest
    else rest

abbrev NonNegative : List PayoutLogRow → Type 0
NonNegative [] = Unit {0}
NonNegative (r ∷ rows) = (pos 0 ≤ℤ r.spend.amount) × NonNegative rows

spent_since-prune :
    (config : VelocityConfig) (c ctx : PayoutContext) (n now : ℕ) (rows : List PayoutLogRow)
    → n ≤ now
    → spent_since config ctx now (prune config c n rows) ≡ spent_since config ctx now rows
unfolding spent_since prune
spent_since-prune config c ctx n now [] h = refl
spent_since-prune config c ctx n now (r ∷ rows) h =
    elim (Bool-cases (counts_for c r && not (in_window config n r.spend.at))) [
      | inl gone ↦
          let late : in_window config now r.spend.at ≡ false = ground arith in
          rw (gone, late, spent_since-prune config c ctx n now rows h) (ground arith)
      | inr kept ↦ rw (kept, spent_since-prune config c ctx n now rows h)
    ]

-- A window that has begun by `now` and reaches it is among what `now` counts.
spent_within-bound :
    (config : VelocityConfig) (ctx : PayoutContext) (from now : ℕ) (rows : List PayoutLogRow)
    → now ≤ from + config.window_ms
    → NonNegative rows
    → spent_within config ctx from rows ≤ℤ spent_since config ctx now rows
unfolding spent_since
spent_within-bound config ctx from now [] h n = ground arith
spent_within-bound config ctx from now (r ∷ rows) h n =
    grind (int_laws, spent_within-bound config ctx from now rows h n.1, n.0)

spent_since_same :
    (config : VelocityConfig) (c ctx : PayoutContext) (now : ℕ) (rows : List PayoutLogRow)
    → c.tenant ≡ ctx.tenant
    → c.merchant ≡ ctx.merchant
    → c.asset ≡ ctx.asset
    → spent_since config c now rows ≡ spent_since config ctx now rows
unfolding spent_since
spent_since_same config c ctx now [] t m a = refl
spent_since_same config c ctx now (r ∷ rows) t m a =
    rw (spent_since_same config c ctx now rows t m a, t, m, a)

admit-ok :
    (config : VelocityConfig) (ctx : PayoutContext) (now : ℕ) (rows rows' : List PayoutLogRow)
    → admit config ctx now rows ≡ ok rows'
    → (spent_since config ctx now rows +ℤ ctx.amount_base_units ≤ℤ config.max_total_base_units)
      × (rows' ≡ prune config ctx now (recorded ctx now ∷ rows))
unfolding admit
admit-ok config ctx now rows rows' h = (ground arith, ground arith)

-- A run keeps what every later window needs of the past.
Run-spent_since :
    (config : VelocityConfig) (rows past : List PayoutLogRow) (last : ℕ)
    → Run config rows past last
    → (ctx : PayoutContext) (now : ℕ) → last ≤ now
    → spent_since config ctx now rows ≡ spent_since config ctx now past
unfolding spent_since
Run-spent_since config _ _ _ Run.start ctx now h = refl
Run-spent_since config _ _ _ (Run.step c n last rows rows' past run le a e) ctx now h =
    let (_, q) = admit-ok config c n rows rows' e in
    rw (
      q,
      spent_since-prune config c ctx n now (recorded c n ∷ rows) h,
      Run-spent_since config rows past last run ctx now (omega arith),
    )

Run-NonNegative :
    (config : VelocityConfig) (rows past : List PayoutLogRow) (last : ℕ)
    → Run config rows past last
    → NonNegative past
Run-NonNegative config _ _ _ Run.start = tt
Run-NonNegative config _ _ _ (Run.step c n last rows rows' past run le a e) =
    (a, Run-NonNegative config rows past last run)

-- When the limit and the amounts are not negative and the clock does not run back, then in no
-- window, wherever it begins, have the payouts admitted for a tenant, merchant and asset spent
-- more than the limit.
pub spent_within-Run :
    (config : VelocityConfig) (rows past : List PayoutLogRow) (last : ℕ)
    → pos 0 ≤ℤ config.max_total_base_units
    → Run config rows past last
    → (ctx : PayoutContext) (from : ℕ)
    → spent_within config ctx from past ≤ℤ config.max_total_base_units
spent_within-Run config _ _ _ m Run.start ctx from = m
spent_within-Run config _ _ _ m (Run.step c n last rows rows' past run le a e) ctx from =
    elim (Bool-cases
      (counts_for ctx (recorded c n) && (leb from n && leb n (from + config.window_ms)))) [
        | inl inside ↦
            let (fits, _) = admit-ok config c n rows rows' e in
            let known = Run-spent_since config rows past last run c n le in
            let one =
              spent_since_same config c ctx n past (ground arith) (ground arith) (ground arith) in
            let less =
              spent_within-bound config ctx from n past (ground arith)
                (Run-NonNegative config rows past last run) in
            rw inside (grind (int_laws, fits, known, one, less))
        | inr outside ↦ rw outside (spent_within-Run config rows past last m run ctx from)
      ]

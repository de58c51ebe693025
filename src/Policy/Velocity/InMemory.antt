-- ===== src/Policy/Velocity/InMemory.antt =====
-- `InMemoryVelocityLimiter` of backend/src/chains/payout/policy.ts.
use cixtech.Prelude.{
  same-true, ap, ◌∙◌, pos, ℤ, ◌+◌, ◌≤◌, leb, ◌&&◌, false, Bool-cases, inl, inr, refl, ℕ, ◌+ℤ◌,
  ltb_ℤ, ◌≤ℤ◌, Text, same, if◌then◌else◌, ◌++◌, List, [], ◌∷◌, get_or, ◌≡◌, arith, int_laws,
}
use cixtech.Prelude.Dict.{Dict, lookup, insert, lookup-insert}
use cixtech.Errors.{Result, ok, ◌>>◌, throw_if}
use cixtech.Policy.Types.{PayoutContext, VelocityConfig}
use cixtech.Policy.Velocity.{in_window, Spend, recent, total, log_key, denied}

abbrev pub Log : Type 0
Log = Dict (List Spend)

-- `this.log.get(key) ?? []`
unfoldable pub entries : Text → Log → List Spend
unfolding lookup
entries key log = get_or (lookup key log) []

unfoldable pub admit : VelocityConfig → PayoutContext → ℕ → Log → Result Log
unfolding entries insert
admit config ctx now log =
    let window = recent config now (entries (log_key ctx) log) in
    throw_if (ltb_ℤ config.max_total_base_units (total window +ℤ ctx.amount_base_units)) denied
    >> ok (
        insert (log_key ctx) (window ++ record { at = now; amount = ctx.amount_base_units } ∷ [])
          log)

total-append : (es : List Spend) (e : Spend) → total (es ++ e ∷ []) ≡ total es +ℤ e.amount
total-append [] e = omega int_laws
total-append (x ∷ es) e = rw (total-append es e) (omega int_laws)

entries-insert :
    (k j : Text) (es : List Spend) (log : Log)
    → entries j (insert k es log) ≡ (if same k j then es else entries j log)
unfolding entries
entries-insert k j es log = ground (arith, lookup-insert k j es log)

admit-ok :
    (config : VelocityConfig) (ctx : PayoutContext) (now : ℕ) (log log' : Log)
    → admit config ctx now log ≡ ok log'
    → let window = recent config now (entries (log_key ctx) log) in
      (total window +ℤ ctx.amount_base_units ≤ℤ config.max_total_base_units)
      × (log'
          ≡ insert
              (log_key ctx)
              (window ++ record { at = now; amount = ctx.amount_base_units } ∷ [])
              log)
unfolding admit
admit-ok config ctx now log log' h = (ground arith, ground arith)

-- The logs that calls of `admit` reach from the empty one, with the payouts admitted so far by their
-- keys and the time of the last. The clock does not run back and the amounts are not negative. A
-- call that throws changes nothing.
pub data Run (config : VelocityConfig) : Log → List (Text × Spend) → ℕ → Type 0 where
  start : Run config [] [] 0
  step :
      (ctx : PayoutContext) (now last : ℕ) (log log' : Log) (past : List (Text × Spend))
      → Run config log past last
      → last ≤ now
      → pos 0 ≤ℤ ctx.amount_base_units
      → admit config ctx now log ≡ ok log'
      → Run config log'
          ((log_key ctx, record { at = now; amount = ctx.amount_base_units }) ∷ past)
          now

-- What was spent under a key from the time `from` up to the end of the window that begins there.
abbrev pub spent_in : VelocityConfig → Text → ℕ → List (Text × Spend) → ℤ
spent_in config key from [] = pos 0
spent_in config key from ((k, e) ∷ past) =
    let rest = spent_in config key from past in
    if same k key && (leb from e.at && leb e.at (from + config.window_ms))
    then e.amount +ℤ rest
    else rest

-- What counts at a time.
abbrev counted : VelocityConfig → Text → ℕ → List (Text × Spend) → ℤ
counted config key now [] = pos 0
counted config key now ((k, e) ∷ past) =
    let rest = counted config key now past in
    if same k key && in_window config now e.at then e.amount +ℤ rest else rest

abbrev NonNegative : List (Text × Spend) → Type 0
NonNegative [] = Unit {0}
NonNegative ((k, e) ∷ past) = (pos 0 ≤ℤ e.amount) × NonNegative past

recent-recent :
    (config : VelocityConfig) (n now : ℕ) (es : List Spend)
    → n ≤ now
    → recent config now (recent config n es) ≡ recent config now es
recent-recent config n now [] h = refl
recent-recent config n now (e ∷ es) h =
    let rest = recent-recent config n now es h in
    elim (Bool-cases (in_window config n e.at)) [
      | inl kept ↦ rw (kept, rest) refl
      | inr gone ↦
          let late : in_window config now e.at ≡ false = ground arith in rw (gone, late, rest) refl
    ]

recent-append :
    (config : VelocityConfig) (now : ℕ) (es : List Spend) (e : Spend)
    → total (recent config now (es ++ e ∷ []))
      ≡ (if in_window config now e.at then e.amount else pos 0) +ℤ total (recent config now es)
recent-append config now [] e = elim (Bool-cases (in_window config now e.at)) [
  | inl inside ↦ rw inside refl
  | inr outside ↦ rw outside (omega int_laws)
]
recent-append config now (x ∷ es) e =
    let rest = recent-append config now es e in
    elim (Bool-cases (in_window config now x.at)) [
      | inl kept ↦ rw (kept, rest) (omega int_laws)
      | inr gone ↦ rw (gone, rest) refl
    ]

spent_in-bound :
    (config : VelocityConfig) (key : Text) (from now : ℕ) (past : List (Text × Spend))
    → now ≤ from + config.window_ms
    → NonNegative past
    → spent_in config key from past ≤ℤ counted config key now past
spent_in-bound config key from now [] h n = ground arith
spent_in-bound config key from now ((k, e) ∷ past) h n =
    grind (int_laws, spent_in-bound config key from now past h n.1, n.0)

-- The log has what counts at every later time.
Run-counted :
    (config : VelocityConfig) (log : Log) (past : List (Text × Spend)) (last : ℕ)
    → Run config log past last
    → (key : Text) (now : ℕ) → last ≤ now
    → total (recent config now (entries key log)) ≡ counted config key now past
unfolding entries lookup
Run-counted config _ _ _ Run.start key now h = refl
Run-counted config _ _ _ (Run.step c n last log log' past run le a e) key now h =
    let (_, q) = admit-ok config c n log log' e in
    let spend : Spend = record { at = n; amount = c.amount_base_units } in
    let window = recent config n (entries (log_key c) log) in
    let stored = entries-insert (log_key c) key (window ++ spend ∷ []) log in
    let known = Run-counted config log past last run in
    let soon : last ≤ now = omega arith in
    elim (Bool-cases (same (log_key c) key)) [
      | inr other ↦
          let as_before : entries key log' ≡ entries key log = rw (q, stored, other) refl in
          rw (as_before, other) (known key now soon)
      | inl it ↦
          let replaced : entries key log' ≡ window ++ spend ∷ [] = rw (q, stored, it) refl in
          let at_key : counted config (log_key c) now past ≡ counted config key now past =
            ap (λ (k : Text). counted config k now past) (same-true (log_key c) key it) in
          let left : total (recent config now window) ≡ counted config key now past =
            ap (λ (es : List Spend). total es)
              (recent-recent config n now (entries (log_key c) log) h)
            ∙ (known (log_key c) now soon ∙ at_key) in
          let sum = recent-append config now window spend in
          elim (Bool-cases (in_window config now n)) [
            | inl inside ↦ rw (replaced, sum, left, it, inside) refl
            | inr outside ↦ rw (replaced, sum, left, it, outside) (omega int_laws)
          ]
    ]

Run-NonNegative :
    (config : VelocityConfig) (log : Log) (past : List (Text × Spend)) (last : ℕ)
    → Run config log past last
    → NonNegative past
Run-NonNegative config _ _ _ Run.start = tt
Run-NonNegative config _ _ _ (Run.step c n last log log' past run le a e) =
    (a, Run-NonNegative config log past last run)

-- When the limit and the amounts are not negative and the clock does not run back, then in no
-- window, wherever it begins, have the payouts admitted under one key of the log spent more than the
-- limit, although the log forgets old payouts.
pub spent_in-Run :
    (config : VelocityConfig) (log : Log) (past : List (Text × Spend)) (last : ℕ)
    → pos 0 ≤ℤ config.max_total_base_units
    → Run config log past last
    → (key : Text) (from : ℕ) → spent_in config key from past ≤ℤ config.max_total_base_units
spent_in-Run config _ _ _ m Run.start key from = m
spent_in-Run config _ _ _ m (Run.step c n last log log' past run le a e) key from =
    elim (Bool-cases (same (log_key c) key && (leb from n && leb n (from + config.window_ms)))) [
      | inl inside ↦
          let (fits, _) = admit-ok config c n log log' e in
          let it : log_key c ≡ key = same-true (log_key c) key (ground arith) in
          let fits_key = rw it at fits in
          let known = Run-counted config log past last run key n le in
          let less =
            spent_in-bound config key from n past (ground arith)
              (Run-NonNegative config log past last run) in
          rw inside (grind (int_laws, fits_key, known, less))
      | inr outside ↦ rw outside (spent_in-Run config log past last m run key from)
    ]

-- ===== src/Policy/Allowlist.antt =====
-- `SqlAllowlist` of backend/src/stores/policy.store.ts over the table payout_allowlist, whose
-- primary key is (tenant, merchant, chain, address), with queries/policy.queries.ts.
use cixtech.Prelude.{
  ℕ, ℤ, pos, negsuc, ◌+◌, leb, Text, same, if◌then◌else◌, ◌&&◌, Bool, true, false, Bool-cases, inl,
  inr, List, [], ◌∷◌, Option, none, some, is_some, get_or, ◌≡◌, refl, arith,
}
use cixtech.Policy.Types.{PayoutContext}

pub record AllowlistKey : Type 0 where
  pub tenant : Text
  pub merchant : Text
  pub chain : Text
  pub address : Text

pub record AllowlistRow : Type 0 where
  pub key : AllowlistKey
  pub usable_at : ℕ
  pub added_at : ℕ

abbrev pub same_key : AllowlistKey → AllowlistKey → Bool
same_key a b =
    same a.tenant b.tenant
    && (same a.merchant b.merchant && (same a.chain b.chain && same a.address b.address))

-- `usableAt` of the queries.
unfoldable pub usable_at : AllowlistKey → List AllowlistRow → Option ℕ
usable_at k [] = none
usable_at k (r ∷ rows) = if same_key r.key k then some r.usable_at else usable_at k rows

-- `Math.max(0, cooldownMs)`
abbrev pub cooldown : ℤ → ℕ
cooldown (pos n) = n
cooldown (negsuc n) = 0

-- The row that is there keeps its `usable_at`.
unfoldable pub add_row : AllowlistRow → List AllowlistRow → List AllowlistRow
add_row row [] = row ∷ []
add_row row (r ∷ rows) = if same_key r.key row.key then r ∷ rows else r ∷ add_row row rows

-- The new rows, and the time from which the address is usable.
unfoldable pub add : AllowlistKey → ℤ → ℕ → List AllowlistRow → ℕ × List AllowlistRow
unfolding add_row usable_at
add k cooldown_ms now rows =
    let at = now + cooldown cooldown_ms in
    let after = add_row (record { key = k; usable_at = at; added_at = now }) rows in
    (get_or (usable_at k after) at, after)

unfoldable pub remove_rows : AllowlistKey → List AllowlistRow → List AllowlistRow
remove_rows k [] = []
remove_rows k (r ∷ rows) =
    let rest = remove_rows k rows in if same_key r.key k then rest else r ∷ rest

unfoldable pub remove : AllowlistKey → List AllowlistRow → Bool × List AllowlistRow
unfolding remove_rows usable_at
remove k rows = (is_some (usable_at k rows), remove_rows k rows)

abbrev pub key_of : PayoutContext → AllowlistKey
key_of ctx = record {
  tenant = ctx.tenant;
  merchant = ctx.merchant;
  chain = ctx.chain;
  address = ctx.destination;
}

abbrev pub has_passed : Option ℕ → ℕ → Bool
has_passed none now = false
has_passed (some at) now = leb at now

unfoldable pub usable : PayoutContext → ℕ → List AllowlistRow → Bool
unfolding usable_at
usable ctx now rows = has_passed (usable_at (key_of ctx) rows) now

same_key_refl : (k : AllowlistKey) → same_key k k ≡ true
same_key_refl k = ground arith

same_key_trans : (a b c : AllowlistKey) → same_key a b ≡ true → same_key a c ≡ same_key b c
same_key_trans a b c h = ground arith

same_key-right : (a b c : AllowlistKey) → same_key b c ≡ true → same_key a b ≡ same_key a c
same_key-right a b c h = ground arith

usable_at-add_row :
    (k : AllowlistKey) (row : AllowlistRow) (rows : List AllowlistRow)
    → usable_at k (add_row row rows) ≡ (
        if same_key row.key k
        then some (get_or (usable_at row.key rows) row.usable_at)
        else usable_at k rows)
unfolding usable_at add_row
usable_at-add_row k row [] = ground arith
usable_at-add_row k row (r ∷ rows) = elim (Bool-cases (same_key r.key row.key)) [
  | inl hit ↦
      rw (hit, same_key_trans r.key row.key k hit)
        (elim (Bool-cases (same_key row.key k)) [ inl this ↦ rw this | inr other ↦ rw other ])
  | inr miss ↦
      rw (miss, usable_at-add_row k row rows)
        (elim (Bool-cases (same_key row.key k)) [
          | inl this ↦ rw (this, ← same_key-right r.key row.key k this, miss)
          | inr other ↦ rw other
        ])
]

usable_at-remove_rows :
    (k j : AllowlistKey) (rows : List AllowlistRow)
    → usable_at j (remove_rows k rows) ≡ (if same_key k j then none else usable_at j rows)
unfolding usable_at remove_rows
usable_at-remove_rows k j [] = ground arith
usable_at-remove_rows k j (r ∷ rows) = elim (Bool-cases (same_key r.key k)) [
  | inl hit ↦
      rw (hit, usable_at-remove_rows k j rows, same_key_trans r.key k j hit)
        (elim (Bool-cases (same_key k j)) [ inl this ↦ rw this | inr other ↦ rw other ])
  | inr miss ↦
      rw (miss, usable_at-remove_rows k j rows)
        (elim (Bool-cases (same_key k j)) [
          | inl this ↦ rw (this, ← same_key-right r.key k j this, miss)
          | inr other ↦ rw other
        ])
]

-- Adding an address makes it usable once its cool-down has passed since it was first added: a
-- second `add` neither shortens nor restarts it. It changes what no other address may do.
pub usable-add :
    (k : AllowlistKey) (cooldown_ms : ℤ) (now later : ℕ) (ctx : PayoutContext)
    (rows : List AllowlistRow)
    → usable ctx later (add k cooldown_ms now rows).1 ≡ (
        if same_key k (key_of ctx)
        then leb (get_or (usable_at k rows) (now + cooldown cooldown_ms)) later
        else usable ctx later rows)
unfolding usable add
usable-add k cooldown_ms now later ctx rows =
    let row : AllowlistRow = record {
      key = k;
      usable_at = now + cooldown cooldown_ms;
      added_at = now;
    } in
    rw (usable_at-add_row (key_of ctx) row rows)
      (elim (Bool-cases (same_key k (key_of ctx))) [ inl this ↦ rw this | inr other ↦ rw other ])

-- A removed address is usable at no time, and the others are as they were; `remove` returns
-- whether the address was listed.
pub usable-remove :
    (k : AllowlistKey) (later : ℕ) (ctx : PayoutContext) (rows : List AllowlistRow)
    → ((remove k rows).0 ≡ is_some (usable_at k rows))
      × (usable ctx later (remove k rows).1
          ≡ (if same_key k (key_of ctx) then false else usable ctx later rows))
unfolding usable remove
usable-remove k later ctx rows = (
  refl,
  rw (usable_at-remove_rows k (key_of ctx) rows)
      (elim (Bool-cases (same_key k (key_of ctx))) [ inl this ↦ rw this | inr other ↦ rw other ]),
)

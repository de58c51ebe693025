-- ===== src/Pool/Lease.antt =====
-- backend/src/attribution/gather-lease.ts over the table pool_gather_lease, whose primary key is
-- the key, with `gatherLease` of queries/infra.queries.ts.
use cixtech.Prelude.{
  ℕ, ◌+◌, ◌≤◌, ltb, Text, codes, upper, same, if◌then◌else◌, ◌&&◌, ◌++◌, Bool, true, false,
  Bool-cases, inl, inr, List, [], ◌∷◌, Option, none, some, ◌≡◌, refl, arith, ◌∙◌,
}
use cixtech.Errors.{Result, err, Error, ErrorCode}

pub record LeaseRow : Type 0 where
  pub key : Text
  pub holder : Text
  pub acquired_at : ℕ
  pub expires_at : ℕ

unfoldable pub lease_key : Text → Text → Text → Text
lease_key tenant merchant chain = tenant ++ (codes ":" ++ (merchant ++ (codes ":" ++ upper chain)))

-- The row of a key.
unfoldable pub lease_at : Text → List LeaseRow → Option LeaseRow
lease_at key [] = none
lease_at key (r ∷ rows) = if same r.key key then some r else lease_at key rows

abbrev pub row_for : Text → Text → ℕ → ℕ → LeaseRow
row_for key holder now ttl_ms = record {
  key = key;
  holder = holder;
  acquired_at = now;
  expires_at = now + ttl_ms;
}

-- The upsert: it takes the row over only when that has expired.
unfoldable pub acquire : ℕ → (key holder : Text) → ℕ → List LeaseRow → Bool × List LeaseRow
acquire ttl_ms key holder now [] = (true, row_for key holder now ttl_ms ∷ [])
acquire ttl_ms key holder now (r ∷ rows) =
    let rest = acquire ttl_ms key holder now rows in
    if same r.key key
    then (if ltb r.expires_at now
        then (true, row_for key holder now ttl_ms ∷ rows)
        else (false, r ∷ rows))
    else (rest.0, r ∷ rest.1)

-- Only the holder's own row is deleted.
unfoldable pub release : (key holder : Text) → List LeaseRow → List LeaseRow
release key holder [] = []
release key holder (r ∷ rows) =
    let rest = release key holder rows in
    if same r.key key && same r.holder holder then rest else r ∷ rest

-- `withLease`, over what the guarded work returns and the table that it leaves behind.
unfoldable pub with_lease :
    {A : Type 0}
    → ℕ
    → (key holder : Text) → ℕ
    → (List LeaseRow → Result A × List LeaseRow)
    → List LeaseRow
    → Result A × List LeaseRow
unfolding acquire release
with_lease ttl_ms key holder now work rows =
    let got = acquire ttl_ms key holder now rows in
    let done = work got.1 in
    if got.0
    then (done.0, release key holder done.1)
    else (err (Error.app ErrorCode.gather_busy), got.1)

abbrev pub free_at : Option LeaseRow → ℕ → Bool
free_at none now = true
free_at (some r) now = ltb r.expires_at now

-- `acquire` succeeds exactly when the key has no lease or an expired one. It then holds the key for
-- the holder until `ttlMs` later, and otherwise leaves the lease as it is; no other key changes.
pub acquire-free :
    (ttl_ms : ℕ) (key holder : Text) (now : ℕ) (rows : List LeaseRow) (other : Text)
    → ((acquire ttl_ms key holder now rows).0 ≡ free_at (lease_at key rows) now)
      × (lease_at other (acquire ttl_ms key holder now rows).1 ≡ (
          if same key other && free_at (lease_at key rows) now
          then some (row_for key holder now ttl_ms)
          else lease_at other rows))
unfolding acquire lease_at
acquire-free ttl_ms key holder now [] other = (refl, ground arith)
acquire-free ttl_ms key holder now (r ∷ rows) other =
    let (a, b) = acquire-free ttl_ms key holder now rows other in
    elim (Bool-cases (same r.key key)) [
      | inl hit ↦ elim (Bool-cases (ltb r.expires_at now)) [
        | inl old ↦ rw (hit, old) (refl, ground arith)
        | inr live ↦ rw (hit, live) (refl, ground arith)
      ]
      | inr miss ↦ rw (miss, b) (a, ground arith)
    ]

lease_at-release :
    (key holder : Text) (l : LeaseRow) (rows : List LeaseRow)
    → lease_at key rows ≡ some l
    → same l.holder holder ≡ false
    → lease_at key (release key holder rows) ≡ some l
unfolding lease_at release
lease_at-release key holder l [] h n = absurd (cc)
lease_at-release key holder l (r ∷ rows) h n = elim (Bool-cases (same r.key key)) [
  | inl hit ↦
      let e : some r ≡ some l = rw hit at h in
      let this : r ≡ l = cc in
      let kept : same r.holder holder ≡ false = rw this n in rw (hit, kept, hit) (rw this)
  | inr miss ↦ rw (miss, miss) (lease_at-release key holder l rows (rw miss at h) n)
]

-- While a lease that was acquired lasts, no one acquires its key, not even after another holder
-- has called `release`.
pub acquire_excludes :
    (ttl_ms later_ttl : ℕ) (key holder other third : Text) (now later : ℕ) (rows : List LeaseRow)
    → (acquire ttl_ms key holder now rows).0 ≡ true
    → later ≤ now + ttl_ms
    → same holder other ≡ false
    → (acquire later_ttl key third later
        (release key other (acquire ttl_ms key holder now rows).1)).0
      ≡ false
acquire_excludes ttl_ms later_ttl key holder other third now later rows got le differ =
    let (free, after) = acquire-free ttl_ms key holder now rows key in
    let held : lease_at key (acquire ttl_ms key holder now rows).1
        ≡ some (row_for key holder now ttl_ms) =
      rw after (ground (arith, free, got)) in
    let kept = lease_at-release key other (row_for key holder now ttl_ms) _ held differ in
    let (again, _) =
      acquire-free later_ttl key third later
        (release key other (acquire ttl_ms key holder now rows).1) key in
    again ∙ (rw kept (ground arith))

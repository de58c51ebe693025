-- ===== src/Pool/Sql/Unique.antt =====
-- The unique keys of the table, and what an update of its rows leaves at an address.
use cixtech.Prelude.{
  subst, ◌⊎◌, leb, Text, same, if◌then◌else◌, ◌&&◌, Bool, true, false, Bool-cases, inl, inr, List,
  [], ◌∷◌, map, Option, none, some, ◌≡◌, refl, sym, ◌∙◌, arith,
}
use cixtech.Pool.Types.{PoolState, PoolAddressRow}
use cixtech.Pool.State.{same_state}
use cixtech.Pool.Sql.{stands_at, in_group, find_by_address, lower, lowest_available}

unfoldable pub by_id : Text → List PoolAddressRow → Option PoolAddressRow
by_id id [] = none
by_id id (r ∷ rows) = if same r.id id then some r else by_id id rows

-- No id and no address of a chain is listed twice.
abbrev pub IsTable : List PoolAddressRow → Type 0
IsTable [] = Unit {0}
IsTable (r ∷ rows) =
    (by_id r.id rows ≡ none) × (find_by_address r.chain r.address rows ≡ none) × IsTable rows

-- A row of the table.
pub data Listed (r : PoolAddressRow) : List PoolAddressRow → Type 0 where
  here : (rows : List PoolAddressRow) → Listed r (r ∷ rows)
  there : (q : PoolAddressRow) (rows : List PoolAddressRow) → Listed r rows → Listed r (q ∷ rows)

same_refl : (a : Text) → same a a ≡ true
same_refl a = ground arith

same_sym : (a b : Text) → same b a ≡ false → same a b ≡ false
same_sym a b h = ground arith

by_id_missing :
    (r : PoolAddressRow) (id : Text) (rows : List PoolAddressRow)
    → Listed r rows
    → by_id id rows ≡ none
    → same r.id id ≡ false
unfolding by_id
by_id_missing r id _ (Listed.here rows) h = ground arith
by_id_missing r id _ (Listed.there q rows l) h = by_id_missing r id rows l (ground arith)

find_missing :
    (r : PoolAddressRow) (chain address : Text) (rows : List PoolAddressRow)
    → Listed r rows
    → find_by_address chain address rows ≡ none
    → stands_at chain address r ≡ false
unfolding find_by_address
find_missing r chain address _ (Listed.here rows) h = ground arith
find_missing r chain address _ (Listed.there q rows l) h =
    find_missing r chain address rows l (ground arith)

-- A listed row is the one found by its id, and the one found at its address.
pub by_id-Listed :
    (r : PoolAddressRow) (rows : List PoolAddressRow)
    → IsTable rows
    → Listed r rows
    → by_id r.id rows ≡ some r
unfolding by_id
by_id-Listed r _ t (Listed.here rows) = rw (same_refl r.id)
by_id-Listed r _ t (Listed.there q rows l) =
    rw (same_sym q.id r.id (by_id_missing r q.id rows l t.0)) (by_id-Listed r rows t.2 l)

pub find_by_address-Listed :
    (r : PoolAddressRow) (rows : List PoolAddressRow)
    → IsTable rows
    → Listed r rows
    → find_by_address r.chain r.address rows ≡ some r
unfolding find_by_address
find_by_address-Listed r _ t (Listed.here rows) = rw (same_refl r.chain, same_refl r.address)
find_by_address-Listed r _ t (Listed.there q rows l) =
    elim (Bool-cases (stands_at r.chain r.address q)) [
      | inl hit ↦ let miss = find_missing r q.chain q.address rows l t.1 in absurd (ground arith)
      | inr miss ↦ rw miss (find_by_address-Listed r rows t.2 l)
    ]

some-injective : (q r : PoolAddressRow) → some q ≡ some r → q ≡ r
some-injective q r h = cc

lower-or :
    (r : PoolAddressRow) (o : Option PoolAddressRow) (l : PoolAddressRow)
    → lower r o ≡ some l
    → (r ≡ l) ⊎ (o ≡ some l)
lower-or r none l h = inl (some-injective r l h)
lower-or r (some q) l h = elim (Bool-cases (leb r.derivation_index q.derivation_index)) [
  | inl first ↦ inl (some-injective r l (rw first at h))
  | inr second ↦ inr (rw second at h)
]

same_state-true :
    (s : PoolState) → same_state s PoolState.available ≡ true → s ≡ PoolState.available
same_state-true PoolState.available h = refl
same_state-true PoolState.reserved h = absurd (cc h)
same_state-true PoolState.in_use h = absurd (cc h)
same_state-true PoolState.cooling h = absurd (cc h)

free_state :
    (r : PoolAddressRow)
    → same_state r.state PoolState.available ≡ true
    → r.state ≡ PoolState.available
free_state r h = same_state-true r.state h

pub Listed-find_by_address :
    (chain address : Text) (r : PoolAddressRow) (rows : List PoolAddressRow)
    → find_by_address chain address rows ≡ some r
    → Listed r rows × (stands_at chain address r ≡ true)
unfolding find_by_address
Listed-find_by_address chain address r [] h = absurd (cc)
Listed-find_by_address chain address r (q ∷ rows) h =
    elim (Bool-cases (stands_at chain address q)) [
      | inl hit ↦
          let e : q ≡ r = some-injective q r (rw hit at h) in
          (rw (← e) (Listed.here rows), rw (← e) hit)
      | inr miss ↦
          let (l, s) = Listed-find_by_address chain address r rows (rw miss at h) in
          (Listed.there q rows l, s)
    ]

pub Listed-lowest_available :
    (tenant merchant chain : Text) (l : PoolAddressRow) (rows : List PoolAddressRow)
    → lowest_available tenant merchant chain rows ≡ some l
    → Listed l rows × (l.state ≡ PoolState.available) × (in_group tenant merchant chain l ≡ true)
unfolding lowest_available
Listed-lowest_available tenant merchant chain l [] h = absurd (cc)
Listed-lowest_available tenant merchant chain l (r ∷ rows) h =
    let rest = lowest_available tenant merchant chain rows in
    elim (Bool-cases (in_group tenant merchant chain r && same_state r.state PoolState.available)) [
      | inl free ↦ elim (lower-or r rest l (rw free at h)) [
        | inl e ↦ (
          rw (← e) (Listed.here rows),
          rw (← e) (free_state r (ground arith)),
          rw (← e) (ground arith),
        )
        | inr e ↦ later (Listed-lowest_available tenant merchant chain l rows e)
      ]
      | inr taken ↦ later (Listed-lowest_available tenant merchant chain l rows (rw taken at h))
    ]
  where
    later :
        Listed l rows × (l.state ≡ PoolState.available) × (in_group tenant merchant chain l ≡ true)
        → Listed l (r ∷ rows)
          × (l.state ≡ PoolState.available)
          × (in_group tenant merchant chain l ≡ true)
    later (m, s, g) = (Listed.there r rows m, s, g)

-- An update that keeps the address of every row updates the row found there.
pub find_by_address-map :
    (f : PoolAddressRow → PoolAddressRow) (chain address : Text) (rows : List PoolAddressRow)
    → ((r : PoolAddressRow) → (f r).chain ≡ r.chain)
    → ((r : PoolAddressRow) → (f r).address ≡ r.address)
    → find_by_address chain address (map f rows)
      ≡ (elim (find_by_address chain address rows) [ none ↦ none | some r ↦ some (f r) ])
unfolding find_by_address
find_by_address-map f chain address [] c a = refl
find_by_address-map f chain address (r ∷ rows) c a = elim (Bool-cases (stands_at chain address r)) [
  | inl hit ↦ rw (kept r true hit, hit)
  | inr miss ↦ rw (kept r false miss, miss) (find_by_address-map f chain address rows c a)
]
  where
    kept :
        (q : PoolAddressRow) (b : Bool)
        → stands_at chain address q ≡ b
        → stands_at chain address (f q) ≡ b
    kept q b h = rw (c q, a q) h

by_id-map-none :
    (f : PoolAddressRow → PoolAddressRow) (id : Text) (rows : List PoolAddressRow)
    → ((r : PoolAddressRow) → (f r).id ≡ r.id)
    → by_id id rows ≡ none
    → by_id id (map f rows) ≡ none
unfolding by_id
by_id-map-none f id [] k h = refl
by_id-map-none f id (r ∷ rows) k h = elim (Bool-cases (same r.id id)) [
  | inl hit ↦ absurd (ground (arith, hit))
  | inr miss ↦
      let kept : same (f r).id id ≡ false = rw (k r) miss in
      rw kept (by_id-map-none f id rows k (rw miss at h))
]

-- An update that keeps the keys of every row keeps the table a table.
pub IsTable-map :
    (f : PoolAddressRow → PoolAddressRow) (rows : List PoolAddressRow)
    → ((r : PoolAddressRow) → (f r).id ≡ r.id)
    → ((r : PoolAddressRow) → (f r).chain ≡ r.chain)
    → ((r : PoolAddressRow) → (f r).address ≡ r.address)
    → IsTable rows
    → IsTable (map f rows)
IsTable-map f [] i c a t = tt
IsTable-map f (r ∷ rows) i c a t = (
  subst (λ (x : Text). by_id x (map f rows) ≡ none) (sym (i r)) (by_id-map-none f r.id rows i t.0),
  subst (λ (x : Text). find_by_address (f r).chain x (map f rows) ≡ none) (sym (a r))
      (subst (λ (x : Text). find_by_address x r.address (map f rows) ≡ none) (sym (c r))
        (find_by_address-map f r.chain r.address rows c a ∙ rw t.1)),
  IsTable-map f rows i c a t.2,
)

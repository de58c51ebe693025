-- ===== src/Pool/Manager/Assign.antt =====
-- Assigning a deposit address to an invoice.
use cixtech.Prelude.{
  ◌==◌, Text, same, if◌then◌else◌, ◌&&◌, Bool, true, false, Bool-cases, Option-cases, inl, inr, ◌⊎◌,
  List, [], ◌∷◌, map, none, some, ◌≡◌, ◌≢◌, refl, sym, ◌∙◌, arith, ap,
}
use cixtech.Errors.{ok}
use cixtech.Pool.Types.{PoolState, PoolAddressRow}
use cixtech.Pool.Sql.{
  stands_at, in_group, find_by_address, lowest_available, claim_available, claim_row, reserved_for,
  new_row, violates, insert_reserved, next_index,
}
use cixtech.Pool.Sql.Unique.{
  IsTable, by_id, by_id-Listed, find_by_address-Listed, Listed-find_by_address,
  Listed-lowest_available, find_by_address-map, IsTable-map,
}
use cixtech.Pool.Manager.{AddressDeriver, PoolManagerConfig, new_address, assign}

guard-false : (b x : Bool) → (if b then true else x) ≡ false → (b ≡ false) × (x ≡ false)
guard-false true x h = absurd (cc h)
guard-false false x h = (refl, h)

violates-false :
    (n : PoolAddressRow) (rows : List PoolAddressRow)
    → violates n rows ≡ false
    → (by_id n.id rows ≡ none) × (find_by_address n.chain n.address rows ≡ none)
unfolding violates by_id find_by_address
violates-false n [] h = (refl, refl)
violates-false n (r ∷ rows) h =
    let (no_id, h1) = guard-false (same r.id n.id) _ h in
    let (no_address, h2) = guard-false (stands_at n.chain n.address r) _ h1 in
    let (_, h3) =
      guard-false
        (in_group n.tenant n.merchant n.chain r && (r.derivation_index == n.derivation_index)) _
        h2 in
    let (i, a) = violates-false n rows h3 in (rw no_id i, rw no_address a)

find_by_address-head :
    (n : PoolAddressRow) (chain : Text) (rows : List PoolAddressRow)
    → n.chain ≡ chain
    → find_by_address chain n.address (n ∷ rows) ≡ some n
unfolding find_by_address
find_by_address-head n chain rows h = ground arith

find_by_address-tail :
    (n r : PoolAddressRow) (chain address : Text) (rows : List PoolAddressRow)
    → find_by_address n.chain n.address rows ≡ none
    → find_by_address chain address rows ≡ some r
    → find_by_address chain address (n ∷ rows) ≡ some r
unfolding find_by_address
find_by_address-tail n r chain address rows missing f =
    elim (Bool-cases (stands_at chain address n)) [
      | inl hit ↦
          let on_chain : n.chain ≡ chain = ground arith in
          let at : n.address ≡ address = ground arith in
          let none_there : find_by_address chain address rows ≡ none =
            rw (← on_chain, ← at) missing in
          let clash : some r ≡ none = sym f ∙ none_there in absurd (cc)
      | inr miss ↦ rw miss f
    ]

state_of : (r l : PoolAddressRow) → some r ≡ some l → r.state ≡ l.state
state_of r l e = let same_row : r ≡ l = cc in ap (λ (x : PoolAddressRow). x.state) same_row

distinct_ids :
    (r l : PoolAddressRow) (rows : List PoolAddressRow)
    → by_id r.id rows ≡ some r
    → by_id l.id rows ≡ some l
    → l.state ≡ PoolState.available
    → r.state ≢ PoolState.available
    → same r.id l.id ≡ false
distinct_ids r l rows one two free busy = elim (Bool-cases (same r.id l.id)) [
  | inl hit ↦
      let e : r.id ≡ l.id = ground arith in
      let two' : by_id r.id rows ≡ some l = rw e two in
      let all : some r ≡ some l = sym one ∙ two' in absurd (busy (state_of r l all ∙ free))
  | inr miss ↦ miss
]

-- What an assignment has done: claimed an available row of the group, or inserted a new one.
assign-cases :
    (derive : AddressDeriver) (config : PoolManagerConfig)
    (id tenant merchant chain invoice xpub : Text) (rows rows' : List PoolAddressRow)
    (address : Text)
    → assign derive config id tenant merchant chain invoice xpub rows ≡ ok (address, rows')
    → ((l : PoolAddressRow) × (lowest_available tenant merchant chain rows ≡ some l)
        × (address ≡ l.address)
        × (rows' ≡ map (claim_row l.id invoice) rows))
      ⊎ ((n : PoolAddressRow) × (violates n rows ≡ false)
          × (n
              ≡ new_row id (
                  new_address derive config tenant merchant chain invoice xpub
                    (next_index chain rows)))
          × (address ≡ n.address)
          × (rows' ≡ n ∷ rows))
unfolding assign claim_available insert_reserved
assign-cases derive config id tenant merchant chain invoice xpub rows rows' address h =
    elim (Option-cases (lowest_available tenant merchant chain rows)) [
      | inl none_left ↦
          let n = new_row id (
            new_address derive config tenant merchant chain invoice xpub (next_index chain rows)) in
          elim (Bool-cases (violates n rows)) [
            | inl clash ↦ absurd (ground (arith, none_left, clash))
            | inr free ↦
                inr
                  (n, free, refl, ground (arith, none_left, free), ground (arith, none_left, free))
          ]
      | inr (l, found) ↦ inl (l, found, ground (arith, found), ground (arith, found))
    ]

-- The claimed row, which is the only one with its id.
claimed_row :
    (tenant merchant chain : Text) (l : PoolAddressRow) (rows : List PoolAddressRow)
    → IsTable rows
    → lowest_available tenant merchant chain rows ≡ some l
    → (find_by_address chain l.address rows ≡ some l)
      × (l.state ≡ PoolState.available)
      × (l.tenant ≡ tenant)
      × (l.merchant ≡ merchant)
claimed_row tenant merchant chain l rows t h =
    let (listed, free, group) = Listed-lowest_available tenant merchant chain l rows h in
    let on_chain : l.chain ≡ chain = ground arith in
    (rw (← on_chain) (find_by_address-Listed l rows t listed), free, ground arith, ground arith)

find_by_address-claim :
    (id invoice chain address : Text) (rows : List PoolAddressRow)
    → find_by_address chain address (map (claim_row id invoice) rows)
      ≡ (elim (find_by_address chain address rows) [
        | none ↦ none
        | some r ↦ some (claim_row id invoice r)
      ])
find_by_address-claim id invoice chain address rows =
    find_by_address-map (claim_row id invoice) chain address rows (λ r. ground arith)
      (λ r. ground arith)

-- On a table with unique ids and addresses, the address that `assign` gives to an invoice was free
-- before: unknown, or available. Afterwards it is reserved for that invoice, for the merchant of
-- that tenant.
pub assign-fresh :
    (derive : AddressDeriver) (config : PoolManagerConfig)
    (id tenant merchant chain invoice xpub : Text) (rows rows' : List PoolAddressRow)
    (address : Text)
    → IsTable rows
    → assign derive config id tenant merchant chain invoice xpub rows ≡ ok (address, rows')
    → ((find_by_address chain address rows ≡ none)
        ⊎ ((r : PoolAddressRow) × (find_by_address chain address rows ≡ some r)
            × (r.state ≡ PoolState.available)))
      × ((r : PoolAddressRow) × (find_by_address chain address rows' ≡ some r)
          × (r.state ≡ PoolState.reserved)
          × (r.invoice_id ≡ some invoice)
          × (r.tenant ≡ tenant)
          × (r.merchant ≡ merchant))
assign-fresh derive config id tenant merchant chain invoice xpub rows rows' address t h =
    elim (assign-cases derive config id tenant merchant chain invoice xpub rows rows' address h) [
      | inl (l, found, ea, er) ↦
          let (at, free, of_tenant, of_merchant) =
            claimed_row tenant merchant chain l rows t found in
          (
            inr (l, rw ea at, free),
            (
              reserved_for invoice l,
              rw (er, ea, find_by_address-claim l.id invoice chain l.address rows, at)
                  (ground arith),
              refl,
              refl,
              of_tenant,
              of_merchant,
            ),
          )
      | inr (n, free, en, ea, er) ↦
          let (_, missing) = violates-false n rows free in
          (
            inl (rw ea (ground (arith, en, missing))),
            (
              n,
              rw (er, ea) (find_by_address-head n chain rows (ground (arith, en))),
              ground (arith, en),
              ground (arith, en),
              ground (arith, en),
              ground (arith, en),
            ),
          )
    ]

-- On a table with unique ids and addresses, no address in play is touched by an assignment: the
-- row found at an address stays as it is unless it is available.
pub assign-kept :
    (derive : AddressDeriver) (config : PoolManagerConfig)
    (id tenant merchant chain invoice xpub : Text) (rows rows' : List PoolAddressRow)
    (address other_chain other : Text) (r : PoolAddressRow)
    → IsTable rows
    → assign derive config id tenant merchant chain invoice xpub rows ≡ ok (address, rows')
    → find_by_address other_chain other rows ≡ some r
    → r.state ≢ PoolState.available
    → find_by_address other_chain other rows' ≡ some r
assign-kept derive config id tenant merchant chain invoice xpub rows rows' address c a r t h f
      busy =
    elim (assign-cases derive config id tenant merchant chain invoice xpub rows rows' address h) [
      | inl (l, found, ea, er) ↦
          let (listed, free, _) = Listed-lowest_available tenant merchant chain l rows found in
          let (in_table, _) = Listed-find_by_address c a r rows f in
          let one = by_id-Listed r rows t in_table in
          let two = by_id-Listed l rows t listed in
          let differ : same r.id l.id ≡ false = distinct_ids r l rows one two free busy in
          rw (er, find_by_address-claim l.id invoice c a rows, f, differ)
      | inr (n, free, en, ea, er) ↦
          let (_, missing) = violates-false n rows free in
          rw er (find_by_address-tail n r c a rows missing f)
    ]

-- An assignment keeps the ids and the addresses of the table unique.
pub assign-IsTable :
    (derive : AddressDeriver) (config : PoolManagerConfig)
    (id tenant merchant chain invoice xpub : Text) (rows rows' : List PoolAddressRow)
    (address : Text)
    → IsTable rows
    → assign derive config id tenant merchant chain invoice xpub rows ≡ ok (address, rows')
    → IsTable rows'
assign-IsTable derive config id tenant merchant chain invoice xpub rows rows' address t h =
    elim (assign-cases derive config id tenant merchant chain invoice xpub rows rows' address h) [
      | inl (l, found, ea, er) ↦ rw er (
          IsTable-map (claim_row l.id invoice) rows (λ r. ground arith) (λ r. ground arith)
            (λ r. ground arith) t)
      | inr (n, free, en, ea, er) ↦
          let (no_id, missing) = violates-false n rows free in rw er (no_id, missing, t)
    ]

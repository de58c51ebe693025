-- ===== src/Pool/Manager/Apply.antt =====
-- Moving an address along its life.
use cixtech.Prelude.{
  Text, ◌&&◌, true, Bool-cases, Option-cases, inl, inr, List, [], ◌∷◌, map, none, some, ◌≡◌, ◌∙◌,
  arith, ap, refl, get_or,
}
use cixtech.Errors.{Result-cases, ok}
use cixtech.Pool.Types.{PoolState, PoolAction, PoolAddressRow, StateChange}
use cixtech.Pool.State.{same_state, Step, next_pool_state, next_pool_state-Step}
use cixtech.Pool.Sql.{stands_at, find_by_address, changed, set_row, transition, set_state}
use cixtech.Pool.Sql.Unique.{IsTable, Listed, find_by_address-Listed, find_by_address-map}
use cixtech.Pool.Manager.{apply}

same_state-eq : (s t : PoolState) → same_state s t ≡ true → s ≡ t
same_state-eq s t h = ground arith

transition-some :
    (chain address : Text) (from to : PoolState) (change : StateChange) (updated : PoolAddressRow)
    (rows : List PoolAddressRow)
    → transition chain address from to change rows ≡ some updated
    → (r : PoolAddressRow) × (Listed r rows)
      × ((stands_at chain address r && same_state r.state from) ≡ true)
      × (updated ≡ changed to change r)
transition-some chain address from to change updated [] h = absurd (cc)
transition-some chain address from to change updated (r ∷ rows) h =
    elim (Bool-cases (stands_at chain address r && same_state r.state from)) [
      | inl hit ↦
          let e : some (changed to change r) ≡ some updated = rw hit at h in
          (r, Listed.here rows, hit, cc)
      | inr miss ↦
          let (q, listed, hit, e) =
            transition-some chain address from to change updated rows (rw miss at h) in
          (q, Listed.there r rows listed, hit, e)
    ]

find_by_address-set :
    (at_chain at from_chain address : Text) (from to : PoolState) (change : StateChange)
    (rows : List PoolAddressRow)
    → find_by_address at_chain at (map (set_row from_chain address from to change) rows)
      ≡ (elim (find_by_address at_chain at rows) [
        | none ↦ none
        | some r ↦ some (set_row from_chain address from to change r)
      ])
find_by_address-set at_chain at chain address from to change rows =
    find_by_address-map (set_row chain address from to change) at_chain at rows (λ r. ground arith)
      (λ r. ground arith)

apply-ok :
    (action : PoolAction) (change : StateChange) (chain address : Text)
    (seen rows rows' : List PoolAddressRow) (updated : PoolAddressRow)
    → apply action change chain address seen rows ≡ ok (updated, rows')
    → (from to : PoolState) × (next_pool_state from action ≡ ok to)
      × (transition chain address from to change rows ≡ some updated)
      × (rows' ≡ map (set_row chain address from to change) rows)
unfolding apply set_state
apply-ok action change chain address seen rows rows' updated h =
    elim (Option-cases (find_by_address chain address seen)) [
      | inl lost ↦ absurd (ground (arith, lost))
      | inr (row, found) ↦ elim (Result-cases (next_pool_state row.state action)) [
        | inr (e, wrong) ↦ absurd (ground (arith, found, wrong))
        | inl (to, right) ↦
            elim (Option-cases (transition chain address row.state to change rows)) [
              | inl moved ↦ absurd (ground (arith, found, right, moved))
              | inr (u, e) ↦ (
                row.state,
                to,
                right,
                e ∙ ap some (ground (arith, found, right, e)),
                ground (arith, found, right, e),
              )
            ]
      ]
    ]

-- What an action with this change of columns makes of a row.
pub record IsMoved (action : PoolAction) (change : StateChange) (r updated : PoolAddressRow)
    : Type 0 where
  pub state : Step action r.state updated.state
  pub invoice_id : updated.invoice_id ≡ get_or change.invoice_id r.invoice_id
  pub cooldown_until : updated.cooldown_until ≡ get_or change.cooldown_until r.cooldown_until
  pub id : updated.id ≡ r.id
  pub tenant : updated.tenant ≡ r.tenant
  pub merchant : updated.merchant ≡ r.merchant
  pub chain : updated.chain ≡ r.chain
  pub derivation_index : updated.derivation_index ≡ r.derivation_index
  pub address : updated.address ≡ r.address
  pub gather_strategy : updated.gather_strategy ≡ r.gather_strategy

-- On a table with unique ids and addresses, an action that succeeds, whatever happened to the
-- table since the row was read, has moved the row at the address by the step of the address's life
-- that the action stands for. The invoice and the end of the cool-down are those that the action
-- was given, or as before where it was given none, and every other column is as before.
pub apply-Step :
    (action : PoolAction) (change : StateChange) (chain address : Text)
    (seen rows rows' : List PoolAddressRow) (updated : PoolAddressRow)
    → IsTable rows
    → apply action change chain address seen rows ≡ ok (updated, rows')
    → (r : PoolAddressRow) × (find_by_address chain address rows ≡ some r)
      × IsMoved action change r updated
      × (find_by_address chain address rows' ≡ some updated)
apply-Step action change chain address seen rows rows' updated t h =
    let (from, to, next, moved, after) =
      apply-ok action change chain address seen rows rows' updated h in
    let (r, listed, hit, e) = transition-some chain address from to change updated rows moved in
    let was : r.state ≡ from = same_state-eq r.state from (ground arith) in
    let on_chain : r.chain ≡ chain = ground arith in
    let at : r.address ≡ address = ground arith in
    let found : find_by_address chain address rows ≡ some r =
      rw (← on_chain, ← at) (find_by_address-Listed r rows t listed) in
    (
      r,
      found,
      record {
        state = rw (was, e) (next_pool_state-Step from to action next);
        invoice_id = rw e refl;
        cooldown_until = rw e refl;
        id = rw e refl;
        tenant = rw e refl;
        merchant = rw e refl;
        chain = rw e refl;
        derivation_index = rw e refl;
        address = rw e refl;
        gather_strategy = rw e refl;
      },
      rw (
        after,
        find_by_address-set chain address chain address from to change rows,
        found,
        hit,
        e,
      ),
    )

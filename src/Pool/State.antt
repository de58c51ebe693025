-- ===== src/Pool/State.antt =====
-- backend/src/attribution/pool-state.ts: the states of a deposit address.
use cixtech.Prelude.{subst, if◌then◌else◌, Bool, true, false, List, [], ◌∷◌, ◌≡◌, arith}
use cixtech.Errors.{Result, ok, err, Error, ErrorCode}
use cixtech.Pool.Types.{PoolState, PoolAction}

abbrev pub same_state : PoolState → PoolState → Bool
same_state PoolState.available PoolState.available = true
same_state PoolState.reserved PoolState.reserved = true
same_state PoolState.in_use PoolState.in_use = true
same_state PoolState.cooling PoolState.cooling = true
same_state _ _ = false

abbrev includes_state : List PoolState → PoolState → Bool
includes_state [] s = false
includes_state (x ∷ xs) s = if same_state x s then true else includes_state xs s

-- `TRANSITIONS`
abbrev pub from_states : PoolAction → List PoolState
from_states PoolAction.reserve = PoolState.available ∷ []
from_states PoolAction.detect = PoolState.reserved ∷ []
from_states PoolAction.cool = PoolState.in_use ∷ []
from_states PoolAction.release = PoolState.cooling ∷ PoolState.reserved ∷ []

abbrev pub to_state : PoolAction → PoolState
to_state PoolAction.reserve = PoolState.reserved
to_state PoolAction.detect = PoolState.in_use
to_state PoolAction.cool = PoolState.cooling
to_state PoolAction.release = PoolState.available

unfoldable pub can_pool_transition : PoolState → PoolAction → Bool
can_pool_transition current action = includes_state (from_states action) current

abbrev pub invalid_transition : Error
invalid_transition = Error.app ErrorCode.pool_invalid_transition

unfoldable pub next_pool_state : PoolState → PoolAction → Result PoolState
next_pool_state current action =
    if includes_state (from_states action) current
    then ok (to_state action)
    else err invalid_transition

-- The life of an address, by the actions that move it.
pub data Step : PoolAction → PoolState → PoolState → Type 0 where
  reserved : Step PoolAction.reserve PoolState.available PoolState.reserved
  paid : Step PoolAction.detect PoolState.reserved PoolState.in_use
  rested : Step PoolAction.cool PoolState.in_use PoolState.cooling
  freed : Step PoolAction.release PoolState.cooling PoolState.available
  unpaid : Step PoolAction.release PoolState.reserved PoolState.available

to_step : {a : PoolAction} {s t u : PoolState} → Step a s t → t ≡ u → Step a s u
to_step {a = a} {s = s} p e = subst (λ x. Step a s x) e p

-- An action leads to another state only along the life of an address.
pub next_pool_state-Step :
    (s t : PoolState) (a : PoolAction) → next_pool_state s a ≡ ok t → Step a s t
unfolding next_pool_state
next_pool_state-Step PoolState.available t PoolAction.reserve h =
    to_step Step.reserved (ground arith)
next_pool_state-Step PoolState.available t PoolAction.detect h = absurd (ground arith)
next_pool_state-Step PoolState.available t PoolAction.cool h = absurd (ground arith)
next_pool_state-Step PoolState.available t PoolAction.release h = absurd (ground arith)
next_pool_state-Step PoolState.reserved t PoolAction.reserve h = absurd (ground arith)
next_pool_state-Step PoolState.reserved t PoolAction.detect h = to_step Step.paid (ground arith)
next_pool_state-Step PoolState.reserved t PoolAction.cool h = absurd (ground arith)
next_pool_state-Step PoolState.reserved t PoolAction.release h = to_step Step.unpaid (ground arith)
next_pool_state-Step PoolState.in_use t PoolAction.reserve h = absurd (ground arith)
next_pool_state-Step PoolState.in_use t PoolAction.detect h = absurd (ground arith)
next_pool_state-Step PoolState.in_use t PoolAction.cool h = to_step Step.rested (ground arith)
next_pool_state-Step PoolState.in_use t PoolAction.release h = absurd (ground arith)
next_pool_state-Step PoolState.cooling t PoolAction.reserve h = absurd (ground arith)
next_pool_state-Step PoolState.cooling t PoolAction.detect h = absurd (ground arith)
next_pool_state-Step PoolState.cooling t PoolAction.cool h = absurd (ground arith)
next_pool_state-Step PoolState.cooling t PoolAction.release h = to_step Step.freed (ground arith)

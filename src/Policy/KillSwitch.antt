-- ===== src/Policy/KillSwitch.antt =====
-- `SqlKillSwitch` of backend/src/stores/policy.store.ts over the table policy_kill_switch, whose
-- primary key is the scope. The reason and the time of a row are not read by the policy.
use cixtech.Prelude.{Text, same, if◌then◌else◌, get_or, Bool, true, false, ◌≡◌, arith}
use cixtech.Prelude.Dict.{Dict, lookup, insert, lookup-insert}

abbrev pub KillSwitches : Type 0
KillSwitches = Dict Bool

unfoldable pub engaged : Text → KillSwitches → Bool
unfolding lookup
engaged scope rows = get_or (lookup scope rows) false

unfoldable pub engage : Text → KillSwitches → KillSwitches
unfolding insert
engage scope rows = insert scope true rows

unfoldable pub reset : Text → KillSwitches → KillSwitches
unfolding insert
reset scope rows = insert scope false rows

-- A switch that is engaged reads as engaged and one that is reset as not, and neither operation
-- touches the switch of another scope.
pub engaged-set :
    (scope other : Text) (rows : KillSwitches)
    → (engaged other (engage scope rows) ≡ (if same scope other then true else engaged other rows))
      × (engaged other (reset scope rows)
          ≡ (if same scope other then false else engaged other rows))
unfolding engaged engage reset
engaged-set scope other rows = (
  ground (arith, lookup-insert scope other true rows),
  ground (arith, lookup-insert scope other false rows),
)

-- ===== src/Policy/Examples.antt =====
-- The payout policy on concrete payouts.
use cixtech.Prelude.{
  not, ◌&&◌, ◌≢◌, includes, pos, ◌+ℤ◌, ◌≤ℤ◌, ◌+◌, leb, codes, Text-discrete, same, if◌then◌else◌,
  ◌++◌, true, get_or, List, [], ◌∷◌, none, some, ◌≡◌, ◌↔◌, refl, arith,
}
use cixtech.Errors.{ok}
use cixtech.Policy.Types.{PayoutContext, PolicyDecision, VelocityConfig}
use cixtech.Policy.Engine.{PolicyConfig, approvers, evaluate, check}
use cixtech.Policy.Engine.Conditions.{IsPermitted}
use cixtech.Policy.Engine.Permitted.{check-ok_iff}
use cixtech.Policy.Engine.Refused.{evaluate_refused}
use cixtech.Policy.Allowlist.{
  AllowlistRow, same_key, cooldown, key_of, usable_at, usable, add, usable-add,
}
use cixtech.Policy.Velocity.{Spend, PayoutLogRow, recorded, admit, log_key}
use cixtech.Policy.Velocity.Window.{Run, spent_within, spent_within-Run}
use cixtech.Policy.Velocity.InMemory
use cixtech.Policy.Approvals.{
  ApproveInput, ApprovalRow, approve, approvers_for, approve-approvers_for,
}

abbrev ctx : PayoutContext
ctx = record {
  tenant = codes "t";
  merchant = codes "m";
  chain = codes "TRON";
  asset = codes "USDT";
  amount_base_units = pos 60;
  destination = codes "T9";
  requester = some (codes "ann");
  approvals = some (codes "bob" ∷ codes "ann" ∷ codes "bob" ∷ []);
  requested_at = some 10;
}

abbrev limit : VelocityConfig
limit = record { window_ms = 100; max_total_base_units = pos 100 }

-- Two approvals over 50, a delay of 30 over 10, and the limit above.
abbrev config : PolicyConfig (List PayoutLogRow)
config = record {
  max_per_payout_base_units = pos 1000;
  allowlist = codes "T9" ∷ [];
  allowlist_store = none;
  kill_switch = none;
  sanctions = none;
  solvency = none;
  approval = some (record { threshold_base_units = pos 50; required = 1 });
  time_lock = some (record { threshold_base_units = pos 10; delay_ms = 30 });
  velocity = some (admit limit);
}

allowed_run : (evaluate config ctx 40 []) ≡ ok (PolicyDecision.allow, recorded ctx 40 ∷ [])
unfolding evaluate approvers admit Text-discrete ◌+ℤ◌
allowed_run = refl

check-ok_iff_example :
    (check config ctx 40 [] ≡ ok (recorded ctx 40 ∷ []))
    ↔ IsPermitted config ctx 40 [] (recorded ctx 40 ∷ [])
check-ok_iff_example = check-ok_iff config ctx 40 [] (recorded ctx 40 ∷ [])

-- A payout admitted before.
abbrev earlier : List PayoutLogRow
earlier = recorded ctx 1 ∷ []

delayed_later : evaluate config ctx 39 earlier ≡ ok (PolicyDecision.delay 40, earlier)
unfolding evaluate approvers Text-discrete
delayed_later = refl

evaluate_refused_example : earlier ≡ earlier
evaluate_refused_example =
    evaluate_refused config ctx 39 earlier earlier (PolicyDecision.delay 40) delayed_later (λ e. cc)

once : Run limit (recorded ctx 40 ∷ []) (recorded ctx 40 ∷ []) 40
unfolding admit Text-discrete ◌+ℤ◌
once = Run.step ctx 40 0 [] (recorded ctx 40 ∷ []) [] Run.start (omega arith) (omega arith) refl

-- The second payout prunes the first, whose window is over.
twice : Run limit (recorded ctx 141 ∷ []) (recorded ctx 141 ∷ recorded ctx 40 ∷ []) 141
unfolding admit Text-discrete ◌+ℤ◌
twice =
    Run.step ctx 141 40 (recorded ctx 40 ∷ []) (recorded ctx 141 ∷ []) (recorded ctx 40 ∷ []) once
      (omega arith) (omega arith) refl

spent_within-Run_example :
    spent_within limit ctx 41 (recorded ctx 141 ∷ recorded ctx 40 ∷ []) ≤ℤ pos 100
spent_within-Run_example =
    spent_within-Run limit (recorded ctx 141 ∷ []) (recorded ctx 141 ∷ recorded ctx 40 ∷ []) 141
      (omega arith) twice ctx 41

abbrev spend : Spend
spend = record { at = 40; amount = pos 60 }

remembered : InMemory.admit limit ctx 40 [] ≡ ok ((log_key ctx, spend ∷ []) ∷ [])
unfolding InMemory.admit Text-discrete ◌+ℤ◌ log_key
remembered = refl

remembered_run : InMemory.Run limit ((log_key ctx, spend ∷ []) ∷ []) ((log_key ctx, spend) ∷ []) 40
remembered_run =
    InMemory.Run.step ctx 40 0 [] ((log_key ctx, spend ∷ []) ∷ []) [] InMemory.Run.start
      (omega arith) (omega arith) remembered

InMemory_spent_in-Run_example :
    InMemory.spent_in limit (codes "t:m:USDT") 7 ((log_key ctx, spend) ∷ []) ≤ℤ pos 100
InMemory_spent_in-Run_example =
    InMemory.spent_in-Run limit ((log_key ctx, spend ∷ []) ∷ []) ((log_key ctx, spend) ∷ []) 40
      (omega arith) remembered_run (codes "t:m:USDT") 7

abbrev rows : List AllowlistRow
rows = record { key = key_of ctx; usable_at = 5; added_at = 1 } ∷ []

usable-add_example : usable ctx 6 (add (key_of ctx) (pos 9) 2 rows).1 ≡ (
    if same_key (key_of ctx) (key_of ctx)
    then leb (get_or (usable_at (key_of ctx) rows) (2 + cooldown (pos 9))) 6
    else usable ctx 6 rows)
usable-add_example = usable-add (key_of ctx) (pos 9) 2 6 ctx rows

abbrev approval : ApproveInput
approval = record {
  tenant = codes "t";
  intent_key = codes "k";
  approver = codes "bob";
  requested_by = some (codes "ann");
}

abbrev approvals : List ApprovalRow
approvals = record { intent_key = codes "k"; approver = codes "bob"; tenant = codes "t" } ∷ []

approved : approve approval [] ≡ ok (true, approvals)
unfolding approve Text-discrete
approved = refl

approve-approvers_for_example :
    (some (codes "ann") ≢ some (codes "bob"))
    × (true ≡ not (includes (approvers_for (codes "k") []) (codes "bob")))
    × (approvers_for (codes "k") approvals ≡ (
        if true && same (codes "k") (codes "k")
        then approvers_for (codes "k") [] ++ codes "bob" ∷ []
        else approvers_for (codes "k") []))
approve-approvers_for_example =
    approve-approvers_for approval [] approvals true (codes "k") approved

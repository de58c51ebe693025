-- ===== src/Policy/Approvals.antt =====
-- `ApprovalStore` of backend/src/stores/approval.store.ts over the table payout_approval, whose
-- primary key is (intent_key, approver). The rows stand in the order of their `at`.
use cixtech.Prelude.{
  Text, same, includes, if◌then◌else◌, ◌&&◌, ◌++◌, not, Bool, true, false, List, [], ◌∷◌, Option,
  none, some, ◌≡◌, ◌≢◌, refl, arith,
}
use cixtech.Errors.{Result, ok, Error, ErrorCode, ◌>>◌, throw_if}

pub record ApprovalRow : Type 0 where
  pub intent_key : Text
  pub approver : Text
  pub tenant : Text

pub record ApproveInput : Type 0 where
  pub tenant : Text
  pub intent_key : Text
  pub approver : Text
  pub requested_by : Option Text

abbrev pub self_approval : Error
self_approval = Error.app ErrorCode.policy_self_approval

abbrev pub is_empty : Text → Bool
is_empty [] = true
is_empty (_ ∷ _) = false

-- `input.requestedBy && input.requestedBy === input.approver`
abbrev pub requested_it : ApproveInput → Bool
requested_it i = elim i.requested_by [
  | none ↦ false
  | some r ↦ not (is_empty r) && same r i.approver
]

unfoldable pub approvers_for : Text → List ApprovalRow → List Text
approvers_for key [] = []
approvers_for key (r ∷ rows) =
    let rest = approvers_for key rows in if same r.intent_key key then r.approver ∷ rest else rest

-- `ON CONFLICT (intent_key, approver) DO NOTHING`
abbrev pub is_listed : ApproveInput → List ApprovalRow → Bool
is_listed i [] = false
is_listed i (r ∷ rows) =
    if same r.intent_key i.intent_key && same r.approver i.approver then true else is_listed i rows

abbrev pub row_of : ApproveInput → ApprovalRow
row_of i = record { intent_key = i.intent_key; approver = i.approver; tenant = i.tenant }

unfoldable pub approve : ApproveInput → List ApprovalRow → Result (Bool × List ApprovalRow)
approve i rows =
    throw_if (is_empty i.approver) self_approval
    >> throw_if (requested_it i) self_approval
    >> ok (if is_listed i rows then (false, rows) else (true, rows ++ row_of i ∷ []))

is_listed-includes :
    (i : ApproveInput) (rows : List ApprovalRow)
    → is_listed i rows ≡ includes (approvers_for i.intent_key rows) i.approver
unfolding approvers_for
is_listed-includes i [] = refl
is_listed-includes i (r ∷ rows) = ground (arith, is_listed-includes i rows)

approvers_for-append :
    (key : Text) (i : ApproveInput) (rows : List ApprovalRow)
    → approvers_for key (rows ++ row_of i ∷ []) ≡ (
        if same i.intent_key key
        then approvers_for key rows ++ i.approver ∷ []
        else approvers_for key rows)
unfolding approvers_for
approvers_for-append key i [] = refl
approvers_for-append key i (r ∷ rows) = ground (arith, approvers_for-append key i rows)

-- An approval that is taken is not the requester's own. It adds its approver to those of the
-- intent once, and changes the approvers of no other intent.
pub approve-approvers_for :
    (i : ApproveInput) (rows rows' : List ApprovalRow) (recorded : Bool) (key : Text)
    → approve i rows ≡ ok (recorded, rows')
    → (i.requested_by ≢ some i.approver)
      × (recorded ≡ not (includes (approvers_for i.intent_key rows) i.approver))
      × (approvers_for key rows' ≡ (
          if recorded && same i.intent_key key
          then approvers_for key rows ++ i.approver ∷ []
          else approvers_for key rows))
unfolding approve
approve-approvers_for i rows rows' recorded key h = (
  λ e. ground (arith, e),
  ground (arith, is_listed-includes i rows),
  ground (arith, approvers_for-append key i rows),
)

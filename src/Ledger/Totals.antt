-- ===== src/Ledger/Totals.antt =====
-- The loop of `totalsByType` over signed nets of accounts, which both stores run.
pub mod Equation
use cixtech.Prelude.{
  ℤ, pos, neg, ◌+ℤ◌, Text, same, if◌then◌else◌, get_or, Bool, true, false, List, [], ◌∷◌, Option,
}
use cixtech.Prelude.Dict.{Dict, lookup, insert}
use cixtech.Errors.{Result, ok, ◌>>=◌}
use cixtech.Ledger.Accounts.{AccountType, account_type_of}
use cixtech.Ledger.Store.{TotalsByType}

pub record AccountNet : Type 0 where
  pub account : Text
  pub asset : Text
  pub amount : ℤ

-- Whether two account types are one.
abbrev pub same_type : AccountType → AccountType → Bool
same_type AccountType.liability AccountType.liability = true
same_type AccountType.asset AccountType.asset = true
same_type AccountType.revenue AccountType.revenue = true
same_type AccountType.expense AccountType.expense = true
same_type _ _ = false

-- `type === Asset || type === Expense ? signed : -signed`
abbrev pub normal_positive : AccountType → ℤ → ℤ
normal_positive AccountType.asset n = n
normal_positive AccountType.expense n = n
normal_positive _ n = neg n

add_total : AccountType → Text → ℤ → TotalsByType → TotalsByType
unfolding lookup insert
add_total type asset n totals t =
    if same_type type t
    then insert asset (get_or (lookup asset (totals t)) (pos 0) +ℤ n) (totals t)
    else totals t

unfoldable pub totals_from : TotalsByType → List AccountNet → Result TotalsByType
unfolding add_total
totals_from totals [] = ok totals
totals_from totals (r ∷ rs) = do
  type ← account_type_of r.account
  totals_from (add_total type r.asset (normal_positive type r.amount) totals) rs

abbrev pub no_totals : TotalsByType
no_totals t = []

unfoldable pub totals_of : List AccountNet → Result TotalsByType
unfolding totals_from
totals_of rs = totals_from no_totals rs

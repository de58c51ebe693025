-- ===== src/Policy/Velocity.antt =====
-- The rolling velocity limits: `InMemoryVelocityLimiter` of backend/src/chains/payout/policy.ts
-- and `SqlVelocityLimiter` of stores/policy.store.ts with `payoutLog` of queries/policy.queries.ts.
-- A time `at` is in the window of `now` when `at >= now - windowMs`, that is
-- `now <= at + windowMs`.
pub mod InMemory
pub mod Window
use cixtech.Prelude.{
  ℕ, ℤ, pos, ◌+ℤ◌, ltb_ℤ, ◌+◌, leb, Text, codes, same, if◌then◌else◌, ◌&&◌, not, Bool, List, [],
  ◌∷◌, ◌++◌, get_or,
}
use cixtech.Errors.{Result, ok, err, Error, ErrorCode, ◌>>=◌, ◌>>◌, throw_if}
use cixtech.Policy.Types.{PayoutContext, VelocityConfig}

pub record Spend : Type 0 where
  pub at : ℕ
  pub amount : ℤ

abbrev pub in_window : VelocityConfig → ℕ → ℕ → Bool
in_window config now at = leb now (at + config.window_ms)

abbrev pub denied : Error
denied = Error.app ErrorCode.policy_denied

-- `filter((e) => e.at >= cutoff)`
abbrev pub recent : VelocityConfig → ℕ → List Spend → List Spend
recent config now [] = []
recent config now (e ∷ es) =
    let rest = recent config now es in if in_window config now e.at then e ∷ rest else rest

-- `reduce((sum, e) => sum + e.amount, 0n)`
abbrev pub total : List Spend → ℤ
total [] = pos 0
total (e ∷ es) = e.amount +ℤ total es

unfoldable pub log_key : PayoutContext → Text
log_key ctx = ctx.tenant ++ (codes ":" ++ (ctx.merchant ++ (codes ":" ++ ctx.asset)))

pub record PayoutLogRow : Type 0 where
  pub tenant : Text
  pub merchant : Text
  pub asset : Text
  pub spend : Spend

-- Whether a row counts for the tenant, the merchant and the asset of a payout.
abbrev pub counts_for : PayoutContext → PayoutLogRow → Bool
counts_for ctx r =
    same r.tenant ctx.tenant && (same r.merchant ctx.merchant && same r.asset ctx.asset)

-- `payoutLog.spentSince`
unfoldable pub spent_since : VelocityConfig → PayoutContext → ℕ → List PayoutLogRow → ℤ
spent_since config ctx now [] = pos 0
spent_since config ctx now (r ∷ rows) =
    let rest = spent_since config ctx now rows in
    if counts_for ctx r && in_window config now r.spend.at then r.spend.amount +ℤ rest else rest

-- `payoutLog.prune`
unfoldable pub prune : VelocityConfig → PayoutContext → ℕ → List PayoutLogRow → List PayoutLogRow
prune config ctx now [] = []
prune config ctx now (r ∷ rows) =
    let rest = prune config ctx now rows in
    if counts_for ctx r && not (in_window config now r.spend.at) then rest else r ∷ rest

-- The row that `payoutLog.record` inserts.
abbrev pub recorded : PayoutContext → ℕ → PayoutLogRow
recorded ctx now = record {
  tenant = ctx.tenant;
  merchant = ctx.merchant;
  asset = ctx.asset;
  spend = record { at = now; amount = ctx.amount_base_units };
}

-- One transaction: the advisory lock puts the calls for one key in an order.
unfoldable pub admit :
    VelocityConfig → PayoutContext → ℕ → List PayoutLogRow → Result (List PayoutLogRow)
unfolding spent_since prune
admit config ctx now rows =
    throw_if
      (ltb_ℤ config.max_total_base_units (spent_since config ctx now rows +ℤ ctx.amount_base_units))
      denied
    >> ok (prune config ctx now (recorded ctx now ∷ rows))

-- ===== src/LockedPlans.antt =====
-- backend/src/savings/locked-plans.service.ts: the locked plans' read model.
-- The plans are a table keyed by `on_chain_id` (entities/locked-plan.entity.ts).
use stow.Prelude.{ℕ, Option, none, some}
use stow.Prelude.Result.{ok, Action, gets, ◌>>=◌}
use stow.Prelude.Table.{Table}
use stow.Amounts.{Amount}

pub record LockedPlan : Type 0 where
  pub on_chain_id : ℕ
  pub owner : ℕ
  pub balance : Amount
  -- in milliseconds since the epoch
  pub unlock_at : ℕ

abbrev pub plan_id : LockedPlan → ℕ
plan_id p = p.on_chain_id

abbrev pub PlanTable : Type 1
PlanTable = Table LockedPlan plan_id

module _ (t : PlanTable) where
  keep_or_create : LockedPlan → Option LockedPlan → Action t.Store LockedPlan
  keep_or_create plan (some existing) s = (ok existing, s)
  keep_or_create plan none s = (ok plan, t.save plan s)

  -- The argument holds the same fields as the row.
  unfoldable pub upsert_created : LockedPlan → Action t.Store LockedPlan
  unfolding keep_or_create
  upsert_created plan = do
    existing ← gets (t.find_one plan.on_chain_id)
    keep_or_create plan existing

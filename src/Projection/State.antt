-- ===== src/Projection/State.antt =====
-- The stores that the projections write: the tables, the two caches, and the notices sent.
use stow.Prelude.{ℕ, List, ◌∷◌}
use stow.Prelude.Result.{ok, Action}
use stow.Prelude.Cache.{Cache}
use stow.Amounts.{Amount}
use stow.Events.{EventData}
use stow.Goals.{GoalTable}
use stow.Balances.{BalanceTable, BalanceView, BalanceState}
use stow.Groups.{GroupTable}
use stow.LockedPlans.{PlanTable}
use stow.Yields.{PositionTable}

pub record Stores : Type 1 where
  pub goals : GoalTable
  pub balances : BalanceTable
  pub balance_cache : Cache BalanceView
  pub groups : GroupTable
  pub plans : PlanTable
  pub positions : PositionTable
  -- the cached yield rate, under the one key `savings:yield:rate`
  pub yield_cache : Cache Amount

-- The calls of the notification generator: a goal with its owner, name and target; a group with
-- the event's data.
pub data Notice : Type 0 where
  goal_reached : ℕ → ℕ → ℕ → Amount → Notice
  group_settled : ℕ → EventData → Notice

pub record Db (b : Stores) : Type 0 where
  pub goals : b.goals.Store
  pub accounts : BalanceState b.balances b.balance_cache
  pub groups : b.groups.Store
  pub plans : b.plans.Store
  pub positions : b.positions.Store
  pub yield_rate_cached : b.yield_cache.Entries
  -- the latest first
  pub notices : List Notice

module _ (b : Stores) {A : Type 0} where
  abbrev pub on_goals : Action b.goals.Store A → Action (Db b) A
  on_goals m db = let (r, s) = m db.goals in (r, record db { goals = s })

  abbrev pub on_balances : Action (BalanceState b.balances b.balance_cache) A → Action (Db b) A
  on_balances m db = let (r, s) = m db.accounts in (r, record db { accounts = s })

  abbrev pub on_groups : Action b.groups.Store A → Action (Db b) A
  on_groups m db = let (r, s) = m db.groups in (r, record db { groups = s })

  abbrev pub on_plans : Action b.plans.Store A → Action (Db b) A
  on_plans m db = let (r, s) = m db.plans in (r, record db { plans = s })

  abbrev pub on_positions : Action b.positions.Store A → Action (Db b) A
  on_positions m db = let (r, s) = m db.positions in (r, record db { positions = s })

module _ (b : Stores) where
  abbrev pub notify : Notice → Action (Db b) (Unit {0})
  notify n db = (ok tt, record db { notices = n ∷ db.notices })

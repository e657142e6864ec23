-- ===== src/Goals.antt =====
-- backend/src/goals/goals.service.ts: the goals' read model.
-- The goals are a table keyed by `on_chain_id` (entities/goal.entity.ts); the primary key and the
-- timestamps that the database fills in are left out. `now` is the time of the call.
pub mod Contributions
pub mod Lifecycle
pub mod Status
pub mod Totals
mod Tests
use stow.Prelude.{ℕ, suc, Bool, true, false, Option, none, some, List, [], ◌∷◌, length, select}
use stow.Prelude.Int.{ℤ, pos, ◌+ℤ◌}
use stow.Prelude.Result.{
  Result, ok, err, Action, not_found, bad_request, gets, pure, raise, lift, or_raise, ◌>>=◌,
}
use stow.Prelude.Table.{Table}
use stow.Amounts.{Amount, zero_amount, sum_of, big_int, decimal}

pub data GoalStatus : Type 0 where
  active reached claimed : GoalStatus

pub record Goal : Type 0 where
  pub on_chain_id : ℕ
  pub owner : ℕ
  pub name : ℕ
  pub target_amount : Amount
  pub current_amount : Amount
  pub status : GoalStatus
  pub reached_at : Option ℕ

abbrev pub goal_id : Goal → ℕ
goal_id g = g.on_chain_id

abbrev pub GoalTable : Type 1
GoalTable = Table Goal goal_id

-- The argument of `upsertCreated`.
pub record GoalCreated : Type 0 where
  pub on_chain_id : ℕ
  pub owner : ℕ
  pub name : ℕ
  pub target_amount : Amount

abbrev pub created_goal : GoalCreated → Goal
created_goal p = record {
  on_chain_id = p.on_chain_id;
  owner = p.owner;
  name = p.name;
  target_amount = p.target_amount;
  current_amount = zero_amount;
  status = active;
  reached_at = none;
}

module _ (t : GoalTable) where
  abbrev save_goal : Goal → Action t.Store Goal
  save_goal g s = (ok g, t.save g s)

  pub find_by_on_chain_id : ℕ → Action t.Store Goal
  find_by_on_chain_id id s = or_raise (t.find_one id s) not_found s

  keep_or_create : GoalCreated → Option Goal → Action t.Store Goal
  keep_or_create p none = save_goal (created_goal p)
  keep_or_create p (some existing) = pure existing

  unfoldable pub upsert_created : GoalCreated → Action t.Store Goal
  unfolding keep_or_create
  upsert_created p = do existing ← gets (t.find_one p.on_chain_id); keep_or_create p existing

  unfoldable pub apply_contribution : ℕ → Amount → Action t.Store Goal
  unfolding find_by_on_chain_id
  apply_contribution id amount = do
    goal ← find_by_on_chain_id id
    total ← lift (sum_of goal.current_amount amount)
    save_goal (record goal { current_amount = total })

  reach : ℕ → Goal → GoalStatus → Action t.Store (Goal × Bool)
  reach now goal reached = pure (goal, false)
  reach now goal _ = do
    saved ← save_goal (record goal { status = reached; reached_at = some now })
    pure (saved, true)

  -- The goal, and whether the call changed it.
  unfoldable pub mark_reached : ℕ → ℕ → Action t.Store (Goal × Bool)
  unfolding find_by_on_chain_id reach
  mark_reached now id = do goal ← find_by_on_chain_id id; reach now goal goal.status

  claim_at : Goal → GoalStatus → Action t.Store Goal
  claim_at goal active = raise bad_request
  claim_at goal claimed = raise bad_request
  claim_at goal reached = save_goal (record goal { status = claimed })

  unfoldable pub claim : ℕ → Action t.Store Goal
  unfolding find_by_on_chain_id claim_at
  claim id = do goal ← find_by_on_chain_id id; claim_at goal goal.status

pub record GoalSummary : Type 0 where
  pub total_goals : ℕ
  pub active_goals : ℕ
  pub reached_goals : ℕ
  pub total_target : ℤ
  pub total_saved : ℤ

abbrev pub is_active : Goal → Bool
is_active g = elim (g.status) [ active ↦ true | _ ↦ false ]

abbrev pub is_reached : Goal → Bool
is_reached g = elim (g.status) [ reached ↦ true | _ ↦ false ]

-- `goals.reduce((sum, g) => sum + BigInt(<field of g>), 0n)`
pub sum_field : (Goal → Amount) → ℤ → List Goal → Result ℤ
sum_field field sum [] = ok sum
sum_field field sum (g ∷ gs) = elim (big_int (field g)) [
  | ok x ↦ sum_field field (sum +ℤ x) gs
  | err e ↦ err e
]

-- The `GoalSummary` of the goals that `list(owner)` found.
pub summary : List Goal → Result GoalSummary
summary goals = elim (sum_field (λ g. g.target_amount) (pos 0) goals) [
  | err e ↦ err e
  | ok total_target ↦ elim (sum_field (λ g. g.current_amount) (pos 0) goals) [
    | err e ↦ err e
    | ok total_saved ↦ ok (record {
      total_goals = length goals;
      active_goals = length (select is_active goals);
      reached_goals = length (select is_reached goals);
      total_target = total_target;
      total_saved = total_saved;
    })
  ]
]

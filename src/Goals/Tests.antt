-- ===== src/Goals/Tests.antt =====
-- The goals' read model on a list of goals.
use stow.Prelude.{ℕ, ◌≡◌, refl, none, some, List, [], ◌∷◌}
use stow.Prelude.Int.{pos}
use stow.Prelude.Result.{ok}
use stow.Prelude.Table.{list_table}
use stow.Amounts.{decimal, blank}
use stow.Goals.{GoalStatus, Goal, GoalCreated, goal_id, claim}
use stow.Goals.Lifecycle.{
  Follows, GoalCall, creates, contributes, marks, claims, steps, steps-Follows,
}

abbrev goal_at : ℕ → GoalStatus → Goal
goal_at id o = record {
  on_chain_id = id;
  owner = 7;
  name = 11;
  target_amount = decimal (pos 100);
  current_amount = decimal (pos 90);
  status = o;
  reached_at = none;
}

abbrev three_goals : List Goal
three_goals =
    goal_at 1 GoalStatus.active ∷ goal_at 2 GoalStatus.reached ∷ goal_at 3 GoalStatus.claimed ∷ []

abbrev new_goal : GoalCreated
new_goal = record { on_chain_id = 4; owner = 8; name = 12; target_amount = decimal (pos 10) }

abbrev calls : List GoalCall
calls =
    creates new_goal
    ∷ contributes 1 (decimal (pos 25))
    ∷ marks 5 1
    ∷ claims 1
    ∷ claims 1
    ∷ contributes 9 blank
    ∷ []

steps-Follows_example :
    (h : Goal) × ((list_table goal_id).find_one 1 (steps (list_table goal_id) calls three_goals)
      ≡ some h)
    × Follows (goal_at 1 GoalStatus.active) h
steps-Follows_example =
    steps-Follows (list_table goal_id) calls three_goals 1 (goal_at 1 GoalStatus.active) refl

claim_two : (claim (list_table goal_id) 2 three_goals).0 ≡ ok (goal_at 2 GoalStatus.claimed)
unfolding claim
claim_two = refl

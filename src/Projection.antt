-- ===== src/Projection.antt =====
-- backend/src/savings-projection/savings-projection.service.ts: one contract event applied to the
-- projections. Logging is left out. The notification generator is not modelled: its calls are
-- recorded, in order, as notices.
pub mod State
pub mod Replay
pub mod Doubling
pub mod Notices
pub mod Sample
mod Tests
use stow.Prelude.{
  ℕ, Bool, true, false, Option, none, some, List, [], ◌∷◌, ◌++◌, ◌&&◌, not, ◌==◌, if◌then◌else◌,
}
use stow.Prelude.Int.{ℤ, pos, ◌*ℤ◌, ◌/ℤ◌, leb_ℤ, ◌==ℤ◌}
use stow.Prelude.Result.{Result, ok, err, Action, pure, lift, modify, ◌>>=◌, ◌>>◌}
use stow.Amounts.{Amount, decimal, big_int, is_truthy, zero_amount, empty_text}
use stow.Events.{
  Topic, Field, undefined, null, value, EventData, or_else, text, amount_text, name_or_empty,
  to_date,
}
use stow.Goals
use stow.Goals.{Goal, GoalCreated}
use stow.Balances
use stow.Groups
use stow.Groups.{Group}
use stow.LockedPlans
use stow.LockedPlans.{LockedPlan}
use stow.Yields
use State.{Stores, Db, Notice, on_goals, on_balances, on_groups, on_plans, on_positions, notify}

-- `calculateExchangeRate`: assets · 10⁷ / shares, '0' where a text cannot be read
abbrev rate_of : Result ℤ → Result ℤ → Amount
rate_of (ok assets) (ok shares) =
    if shares ==ℤ pos 0 then zero_amount else decimal (assets *ℤ pos 10_000_000 /ℤ shares)
rate_of _ _ = zero_amount

pub calculate_exchange_rate : Amount → Amount → Amount
calculate_exchange_rate assets shares = rate_of (big_int assets) (big_int shares)

abbrev is_present : Field Amount → Bool
is_present (value a) = is_truthy a
is_present _ = false

-- The rate of a `deposited` event, `undefined` where a total is missing or empty.
pub deposited_rate : EventData → Option Amount
unfolding calculate_exchange_rate
deposited_rate d =
    if is_present d.total_shares && is_present d.total_assets
    then some (calculate_exchange_rate (amount_text d.total_assets) (amount_text d.total_shares))
    else none

-- `data.position_shares ?? data.total_shares ?? '0'`
pub deposited_shares : EventData → Amount
deposited_shares d =
    amount_text (or_else d.position_shares (or_else d.total_shares (value zero_amount)))

-- The arguments of the two `upsertCreated` calls.
abbrev pub goal_params : EventData → GoalCreated
goal_params d = record {
  on_chain_id = text (or_else d.id d.goal_id);
  owner = text d.owner;
  name = name_or_empty d.name;
  target_amount = amount_text d.target_amount;
}

abbrev pub plan_params : EventData → LockedPlan
plan_params d = record {
  on_chain_id = text (or_else d.id d.plan_id);
  owner = text d.owner;
  balance = amount_text d.amount;
  unlock_at = to_date d.unlock_at;
}

abbrev pub account_field : EventData → Field ℕ
account_field d = or_else d.owner (or_else d.user d.account)

abbrev pub deposited_owner : EventData → ℕ
deposited_owner d = text (or_else d.owner (value empty_text))

-- `owner && shares`
pub has_owner_and_shares : EventData → Bool
has_owner_and_shares d = not (deposited_owner d == empty_text) && is_truthy (deposited_shares d)

module _ (b : Stores) where
  -- `markGoalReachedAndNotify`
  announce : Goal × Bool → Action (Db b) (Unit {0})
  announce (goal, false) = pure tt
  announce (goal, true) =
      notify b (Notice.goal_reached goal.on_chain_id goal.owner goal.name goal.target_amount)

  pub mark_goal_reached_and_notify : ℕ → ℕ → Action (Db b) (Unit {0})
  unfolding announce
  mark_goal_reached_and_notify now id = do
    marked ← on_goals b (Goals.mark_reached b.goals now id)
    announce marked

  announce_settled : EventData → Group × Bool → Action (Db b) (Unit {0})
  announce_settled d (group, false) = pure tt
  announce_settled d (group, true) = notify b (Notice.group_settled group.on_chain_id d)

  reached_by : ℕ → Goal → ℤ → ℤ → Action (Db b) (Unit {0})
  unfolding mark_goal_reached_and_notify
  reached_by now goal current target =
      if leb_ℤ target current then mark_goal_reached_and_notify now goal.on_chain_id else pure tt

  -- What follows a contribution: the test of the target.
  check_reached : ℕ → Goal → Action (Db b) (Unit {0})
  unfolding reached_by
  check_reached now goal = do
    current ← lift (big_int goal.current_amount)
    target ← lift (big_int goal.target_amount)
    reached_by now goal current target

  -- `apply(topic, data)` at the time `now`
  unfoldable pub apply : ℕ → Topic → EventData → Action (Db b) (Unit {0})
  unfolding mark_goal_reached_and_notify announce_settled check_reached deposited_rate
      deposited_shares has_owner_and_shares
  apply now Topic.goal_created d = do
    on_goals b (Goals.upsert_created b.goals (goal_params d))
    pure tt
  apply now Topic.goal_contribution d = do
    goal ←
        on_goals b
          (Goals.apply_contribution b.goals (text (or_else d.id d.goal_id)) (amount_text d.amount))
    check_reached now goal
  apply now Topic.goal_reached d = mark_goal_reached_and_notify now (text (or_else d.id d.goal_id))
  apply now Topic.locked_created d = do
    on_plans b (LockedPlans.upsert_created b.plans (plan_params d))
    pure tt
  apply now Topic.deposit d = do
    on_balances b
        (Balances.credit b.balances b.balance_cache (text (account_field d)) (amount_text d.amount))
    pure tt
  apply now Topic.withdraw d = do
    on_balances b (
        Balances.set_balance b.balances b.balance_cache (text (account_field d))
          (amount_text d.new_balance))
    pure tt
  apply now Topic.group_split_settled d = do
    settled ← on_groups b (Groups.mark_settled b.groups now (text (or_else d.id d.group_id)))
    announce_settled d settled
  apply now Topic.deposited d =
      if has_owner_and_shares d
      then on_positions b (
          Yields.upsert_yield_position b.positions (deposited_owner d) (deposited_shares d)
            (deposited_rate d))
        >> pure tt
      else pure tt
  apply now Topic.harvested d =
      modify (λ db. record db { yield_rate_cached = b.yield_cache.del 0 db.yield_rate_cached })
  apply now _ d = pure tt

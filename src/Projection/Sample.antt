-- ===== src/Projection/Sample.antt =====
-- Concrete stores for the tests: tables as lists, caches as functions; and sample payloads.
use stow.Prelude.{none, [], ◌∷◌}
use stow.Prelude.Int.{pos}
use stow.Prelude.Table.{list_table}
use stow.Prelude.Cache.{function_cache}
use stow.Amounts.{Amount, decimal}
use stow.Events.{undefined, value, EventData}
use stow.Goals.{Goal, goal_id, active}
use stow.Balances.{BalanceView, account_of}
use stow.Groups.{group_id}
use stow.LockedPlans.{plan_id}
use stow.Yields.{owner_of}
use stow.Projection.State.{Stores, Db}

abbrev pub list_stores : Stores
list_stores = record {
  goals = list_table goal_id;
  balances = list_table account_of;
  balance_cache = function_cache BalanceView;
  groups = list_table group_id;
  plans = list_table plan_id;
  positions = list_table owner_of;
  yield_cache = function_cache Amount;
}

-- A goal at 90 of 100, and an account, 7, that holds 50.
abbrev pub sample_goal : Goal
sample_goal = record {
  on_chain_id = 40;
  owner = 7;
  name = 11;
  target_amount = decimal (pos 100);
  current_amount = decimal (pos 90);
  status = active;
  reached_at = none;
}

abbrev pub sample_db : Db list_stores
sample_db = record {
  goals = sample_goal ∷ [];
  accounts = record {
    rows = record { account = 7; amount = decimal (pos 50) } ∷ [];
    cached = λ _. none;
  };
  groups = [];
  plans = [];
  positions = [];
  yield_rate_cached = λ _. none;
  notices = [];
}

-- A payload with id 40, owner 7, the amount 25 and the balance 5.
abbrev pub sample_data : EventData
sample_data = record {
  id = value 40;
  goal_id = undefined;
  plan_id = undefined;
  group_id = undefined;
  request_id = undefined;
  withdrawal_id = undefined;
  camel_withdrawal_id = undefined;
  camel_request_id = undefined;
  owner = value 7;
  user = undefined;
  account = undefined;
  name = none;
  amount = value (decimal (pos 25));
  target_amount = undefined;
  new_balance = value (decimal (pos 5));
  shares = value (decimal (pos 3));
  position_shares = undefined;
  total_shares = undefined;
  total_assets = undefined;
  delta = undefined;
  fee = undefined;
  unlock_at = undefined;
  claimable_at = value 9;
  timestamp = undefined;
}

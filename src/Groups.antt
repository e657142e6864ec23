-- ===== src/Groups.antt =====
-- backend/src/savings/groups.service.ts: the groups' read model; the memberships are in Members.
-- The groups are a table keyed by `on_chain_id` (entities/group.entity.ts). `now` is the time of
-- the call.
pub mod Members
pub mod Shares
mod Tests
use stow.Prelude.{ℕ, Bool, true, false, Option, none, some}
use stow.Prelude.Result.{ok, Action, gets, pure, ◌>>=◌}
use stow.Prelude.Table.{Table}
use stow.Amounts.{Amount, zero_amount}

pub record Group : Type 0 where
  pub on_chain_id : ℕ
  pub creator : Option ℕ
  pub name : Option ℕ
  pub balance : Amount
  pub is_open : Bool
  pub settled : Bool
  pub settled_at : Option ℕ

abbrev pub group_id : Group → ℕ
group_id g = g.on_chain_id

abbrev pub GroupTable : Type 1
GroupTable = Table Group group_id

-- What `markSettled` creates for a group that was never projected: the columns that it does not
-- name take their defaults.
abbrev pub unknown_group : ℕ → Group
unknown_group id = record {
  on_chain_id = id;
  creator = none;
  name = none;
  balance = zero_amount;
  is_open = true;
  settled = false;
  settled_at = none;
}

abbrev pub found_or_unknown : ℕ → Option Group → Group
found_or_unknown id none = unknown_group id
found_or_unknown id (some g) = g

module _ (t : GroupTable) where
  abbrev save_group : Group → Action t.Store Group
  save_group g s = (ok g, t.save g s)

  settle : ℕ → Group → Bool → Action t.Store (Group × Bool)
  settle now g true = pure (g, false)
  settle now g false = do
    saved ← save_group (record g { settled = true; settled_at = some now; balance = zero_amount })
    pure (saved, true)

  -- The group, and whether the call changed it.
  unfoldable pub mark_settled : ℕ → ℕ → Action t.Store (Group × Bool)
  unfolding settle
  mark_settled now id = do
    g ← gets (λ s. found_or_unknown id (t.find_one id s))
    settle now g g.settled

  keep_or_create : ℕ → ℕ → ℕ → Option Group → Action t.Store Group
  keep_or_create id creator name (some existing) = pure existing
  keep_or_create id creator name none =
      save_group (record (unknown_group id) { creator = some creator; name = some name })

  unfoldable pub upsert_created : ℕ → ℕ → ℕ → Action t.Store Group
  unfolding keep_or_create
  upsert_created id creator name = do
    existing ← gets (t.find_one id)
    keep_or_create id creator name existing

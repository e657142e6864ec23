-- ===== src/Projection/Replay.antt =====
-- backend/src/savings-projection/savings-projection.service.ts: an event delivered twice in a row.
use mathlib.Core.Path.{subst}
use stow.Prelude.{
  ℕ, ◌≡◌, refl, sym, ◌∙◌, inl, inr, Bool, true, false, Option, none, some, arith, Option-cases,
  if◌then◌else◌,
}
use stow.Prelude.Result.{pure, ◌>>◌}
use stow.Prelude.Table.{find_one-save_self, find_one-save_again}
use stow.Amounts.{Amount, zero_amount}
use stow.Events.{Topic, EventData, or_else, text, amount_text}
use stow.Goals
use stow.Goals.{Goal, GoalStatus, GoalCreated, created_goal}
use stow.Balances
use stow.Balances.{Balance}
use stow.Groups
use stow.Groups.{Group, unknown_group}
use stow.LockedPlans
use stow.LockedPlans.{LockedPlan}
use stow.Yields
use stow.Yields.{YieldPosition}
use stow.Projection.State.{Stores, Db, on_positions}
use stow.Projection.{
  apply, mark_goal_reached_and_notify, deposited_shares, deposited_rate, goal_params, plan_params,
  has_owner_and_shares, deposited_owner, account_field,
}

-- The reads of two states agree: every row, every cached view, and the notices sent.
pub record Same (b : Stores) (d e : Db b) : Type 0 where
  pub goals : (k : ℕ) → b.goals.find_one k d.goals ≡ b.goals.find_one k e.goals
  pub balances :
      (k : ℕ) → b.balances.find_one k d.accounts.rows ≡ b.balances.find_one k e.accounts.rows
  pub cached :
      (k : ℕ) → b.balance_cache.get k d.accounts.cached ≡ b.balance_cache.get k e.accounts.cached
  pub groups : (k : ℕ) → b.groups.find_one k d.groups ≡ b.groups.find_one k e.groups
  pub plans : (k : ℕ) → b.plans.find_one k d.plans ≡ b.plans.find_one k e.plans
  pub positions : (k : ℕ) → b.positions.find_one k d.positions ≡ b.positions.find_one k e.positions
  pub yield_rate :
      (k : ℕ) → b.yield_cache.get k d.yield_rate_cached ≡ b.yield_cache.get k e.yield_rate_cached
  pub notices : d.notices ≡ e.notices

-- Every topic but the two that add an amount.
abbrev pub IsReplayable : Topic → Type 0
IsReplayable Topic.goal_contribution = ⊥
IsReplayable Topic.deposit = ⊥
IsReplayable _ = Unit

owner_with_rate :
    (rate : Option Amount) (p : YieldPosition) → (Yields.with_rate rate p).owner ≡ p.owner
owner_with_rate none p = refl
owner_with_rate (some _) p = refl

with_rate_twice :
    (shares : Amount) (rate : Option Amount) (p : YieldPosition)
    → let update = λ (x : YieldPosition). Yields.with_rate rate (record x { shares = shares }) in
      update (update p) ≡ update p
with_rate_twice shares none p = refl
with_rate_twice shares (some _) p = refl

module _ (b : Stores) where
  Same-refl : (d : Db b) → Same b d d
  Same-refl d = record {
    goals = λ k. refl;
    balances = λ k. refl;
    cached = λ k. refl;
    groups = λ k. refl;
    plans = λ k. refl;
    positions = λ k. refl;
    yield_rate = λ k. refl;
    notices = refl;
  }

  Same-eq : {d e : Db b} → d ≡ e → Same b d e
  Same-eq {d} p = subst (λ x. Same b d x) p (Same-refl d)

  goals_twice :
      (p : GoalCreated) (s : b.goals.Store)
      → (Goals.upsert_created b.goals p (Goals.upsert_created b.goals p s).1).1
        ≡ (Goals.upsert_created b.goals p s).1
  unfolding Goals.upsert_created
  goals_twice p s = ground (arith, find_one-save_self b.goals p.on_chain_id (created_goal p) s refl)

  plans_twice :
      (p : LockedPlan) (s : b.plans.Store)
      → (LockedPlans.upsert_created b.plans p (LockedPlans.upsert_created b.plans p s).1).1
        ≡ (LockedPlans.upsert_created b.plans p s).1
  unfolding LockedPlans.upsert_created
  plans_twice p s = ground (arith, find_one-save_self b.plans p.on_chain_id p s refl)

  mark_and_notify_twice :
      (now later id : ℕ) (d : Db b)
      → (mark_goal_reached_and_notify b later id (mark_goal_reached_and_notify b now id d).1).1
        ≡ (mark_goal_reached_and_notify b now id d).1
  unfolding mark_goal_reached_and_notify Goals.mark_reached
  mark_and_notify_twice now later id d = elim (Option-cases (b.goals.find_one id d.goals)) [
    | inl missing ↦ ground arith
    | inr (g, found) ↦
        let h : Goal = record g { status = GoalStatus.reached; reached_at = some now } in
        ground
          (arith, find_one-save_self b.goals id h d.goals (b.goals.find_one-key id d.goals g found))
  ]

  settled_twice :
      (now later : ℕ) (e : EventData) (d : Db b)
      → (apply b later Topic.group_split_settled e (apply b now Topic.group_split_settled e d).1).1
        ≡ (apply b now Topic.group_split_settled e d).1
  unfolding apply Groups.mark_settled
  settled_twice now later e d =
      let id = text (or_else e.id e.group_id) in
      let settled_row =
        λ (g : Group). record g { settled = true; settled_at = some now; balance = zero_amount } in
      elim (Option-cases (b.groups.find_one id d.groups)) [
        | inl missing ↦
            ground
              (arith, find_one-save_self b.groups id (settled_row (unknown_group id)) d.groups refl)
        | inr (g, found) ↦ ground (
          arith,
          find_one-save_self b.groups id (settled_row g) d.groups
              (b.groups.find_one-key id d.groups g found),
        )
      ]

  goal_created_twice :
      (now later : ℕ) (e : EventData) (d : Db b)
      → (apply b later Topic.goal_created e (apply b now Topic.goal_created e d).1).1
        ≡ (apply b now Topic.goal_created e d).1
  unfolding apply
  goal_created_twice now later e d = ground (arith, goals_twice (goal_params e) d.goals)

  locked_created_twice :
      (now later : ℕ) (e : EventData) (d : Db b)
      → (apply b later Topic.locked_created e (apply b now Topic.locked_created e d).1).1
        ≡ (apply b now Topic.locked_created e d).1
  unfolding apply
  locked_created_twice now later e d = ground (arith, plans_twice (plan_params e) d.plans)

  found_account :
      (k : ℕ) (a : Amount) (s : b.balances.Store)
      → let row : Balance = record (Balances.found_or_new k (b.balances.find_one k s)) {
        amount = a;
      } in
        row ≡ record { account = k; amount = a }
  found_account k a s = elim (Option-cases (b.balances.find_one k s)) [
    | inl missing ↦ rw missing refl
    | inr (r, found) ↦
        let e : r.account ≡ k = b.balances.find_one-key k s r found in rw found (ground arith)
  ]

  found_position :
      (k : ℕ) (s : b.positions.Store) → (Yields.found_or_new k (b.positions.find_one k s)).owner ≡ k
  found_position k s = elim (Option-cases (b.positions.find_one k s)) [
    | inl missing ↦ rw missing refl
    | inr (r, found) ↦ rw found (b.positions.find_one-key k s r found)
  ]

  withdraw_twice :
      (now later : ℕ) (e : EventData) (d : Db b)
      → Same b
          (apply b later Topic.withdraw e (apply b now Topic.withdraw e d).1).1
          (apply b now Topic.withdraw e d).1
  unfolding apply Balances.set_balance
  withdraw_twice now later e d = record {
    goals = λ j. refl;
    balances = λ j. find_one-save_again b.balances j _ _ d.accounts.rows (
        found_account (text (account_field e)) (amount_text e.new_balance) _
        ∙ sym (found_account (text (account_field e)) (amount_text e.new_balance) _));
    cached = λ j. ground (
      arith,
      b.balance_cache.get-del j (text (account_field e)) d.accounts.cached,
      b.balance_cache.get-del j (text (account_field e))
          (b.balance_cache.del (text (account_field e)) d.accounts.cached),
    );
    groups = λ j. refl;
    plans = λ j. refl;
    positions = λ j. refl;
    yield_rate = λ j. refl;
    notices = refl;
  }

  upsert_twice :
      (k : ℕ) (shares : Amount) (rate : Option Amount) (s : b.positions.Store) (j : ℕ)
      → let upsert =
          λ (x : b.positions.Store). (Yields.upsert_yield_position b.positions k shares rate x).1 in
        b.positions.find_one j (upsert (upsert s)) ≡ b.positions.find_one j (upsert s)
  unfolding Yields.upsert_yield_position
  upsert_twice k shares rate s j =
      let p = Yields.found_or_new k (b.positions.find_one k s) in
      let r = Yields.with_rate rate (record p { shares = shares }) in
      let owner : r.owner ≡ k = owner_with_rate rate _ ∙ found_position k s in
      let stored : b.positions.find_one k (b.positions.save r s) ≡ some r =
        find_one-save_self b.positions k r s owner in
      find_one-save_again b.positions j r _ s (rw stored (with_rate_twice shares rate p))

  deposited_twice :
      (go : Bool) (k : ℕ) (shares : Amount) (rate : Option Amount) (d : Db b)
      → let deposit = λ (x : Db b).
        ((if go
            then on_positions b (Yields.upsert_yield_position b.positions k shares rate) >> pure tt
            else pure tt)
          x).1 in
        Same b (deposit (deposit d)) (deposit d)
  unfolding Yields.upsert_yield_position
  deposited_twice false k shares rate d = Same-refl d
  deposited_twice true k shares rate d = record {
    goals = λ j. refl;
    balances = λ j. refl;
    cached = λ j. refl;
    groups = λ j. refl;
    plans = λ j. refl;
    positions = upsert_twice k shares rate d.positions;
    yield_rate = λ j. refl;
    notices = refl;
  }

  -- An event that is delivered twice in a row, with nothing applied in between: the second delivery,
  -- whatever the times of the two, changes no read of the projections and sends no further notice,
  -- unless the event is a deposit or a goal contribution.
  pub apply_replay :
      (now later : ℕ) (topic : Topic) (e : EventData) (d : Db b)
      → IsReplayable topic
      → Same b (apply b later topic e (apply b now topic e d).1).1 (apply b now topic e d).1
  unfolding apply
  apply_replay now later Topic.goal_created e d r = Same-eq (goal_created_twice now later e d)
  apply_replay now later Topic.goal_contribution e d r = elim r [ ]
  apply_replay now later Topic.goal_reached e d r =
      Same-eq (mark_and_notify_twice now later (text (or_else e.id e.goal_id)) d)
  apply_replay now later Topic.locked_created e d r = Same-eq (locked_created_twice now later e d)
  apply_replay now later Topic.deposit e d r = elim r [ ]
  apply_replay now later Topic.withdraw e d r = withdraw_twice now later e d
  apply_replay now later Topic.group_split_settled e d r = Same-eq (settled_twice now later e d)
  apply_replay now later Topic.deposited e d r =
      deposited_twice (has_owner_and_shares e) (deposited_owner e) (deposited_shares e)
        (deposited_rate e) d
  apply_replay now later Topic.harvested e d r = record {
    goals = λ j. refl;
    balances = λ j. refl;
    cached = λ j. refl;
    groups = λ j. refl;
    plans = λ j. refl;
    positions = λ j. refl;
    yield_rate = λ j. ground (
      arith,
      b.yield_cache.get-del j 0 d.yield_rate_cached,
      b.yield_cache.get-del j 0 (b.yield_cache.del 0 d.yield_rate_cached),
    );
    notices = refl;
  }
  apply_replay now later _ e d r = Same-refl d

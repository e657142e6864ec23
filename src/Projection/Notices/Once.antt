-- ===== src/Projection/Notices/Once.antt =====
-- backend/src/savings-projection/savings-projection.service.ts: the announcements of goals, event by
-- event.
use mathlib.Core.Path.{subst}
use stow.Prelude.{
  ℕ, ◌≤◌, ◌<◌, ◌≡◌, ◌≢◌, refl, sym, ap, ◌∙◌, inl, inr, Bool, true, false, some, List, [], ◌∷◌,
  arith, ◌==◌, ==_iff, ltb, Bool-cases, Option-cases, some-eq, if◌then◌else◌,
}
use stow.Prelude.Int.{ℤ, leb_ℤ}
use stow.Prelude.Result.{Result, ok, err, Action, Result-cases, pure, then_do, then_do-pure, ◌>>◌}
use stow.Prelude.Table.{find_one-save_self}
use stow.Amounts.{big_int}
use stow.Events.{Topic, EventData, or_else, text, amount_text}
use stow.Goals
use stow.Goals.{Goal, GoalStatus, active, reached, claimed}
use stow.Balances
use stow.Groups
use stow.Groups.{Group}
use stow.LockedPlans
use stow.Yields
use stow.Yields.{YieldPosition}
use stow.Projection.State.{
  Stores, Db, Notice, on_goals, on_balances, on_groups, on_plans, on_positions,
}
use stow.Projection.{
  apply, mark_goal_reached_and_notify, reached_by, check_reached, announce_settled, goal_params,
  plan_params, account_field, has_owner_and_shares, deposited_owner, deposited_shares,
  deposited_rate,
}
use stow.Projection.Notices.{
  announced, IsReached, save-IsReached, upsert_created-IsReached, apply_contribution-IsReached,
}

module _ (b : Stores) where
  -- No goal was announced twice, and what was announced is stored as reached.
  pub record AnnouncedOnce (d : Db b) : Type 0 where
    pub once : (id : ℕ) → announced id d.notices ≤ 1
    pub stored : (id : ℕ) → 0 < announced id d.notices → IsReached b.goals d.goals id

  quiet-AnnouncedOnce :
      (d d' : Db b)
      → d'.notices ≡ d.notices
      → ((id : ℕ) → IsReached b.goals d.goals id → IsReached b.goals d'.goals id)
      → AnnouncedOnce d
      → AnnouncedOnce d'
  quiet-AnnouncedOnce d d' e keep h = record {
    once = λ id. rw e (h.once id);
    stored = λ id p. keep id (h.stored id (rw (← e) p));
  }

  not_announced :
      (d : Db b) (id : ℕ) (g : Goal)
      → AnnouncedOnce d
      → b.goals.find_one id d.goals ≡ some g
      → g.status ≢ reached
      → announced id d.notices ≡ 0
  not_announced d id g h found ne = elim (Bool-cases (ltb 0 (announced id d.notices))) [
    | inl before ↦
        let (g', found', r) = h.stored id (ground arith) in
        absurd (ne (ap (λ (x : Goal). x.status) (some-eq (sym found ∙ found')) ∙ r))
    | inr never ↦ ground arith
  ]

  loud-AnnouncedOnce :
      (now id : ℕ) (d : Db b) (g : Goal)
      → AnnouncedOnce d
      → b.goals.find_one id d.goals ≡ some g
      → g.status ≢ reached
      → AnnouncedOnce (record d {
        goals = b.goals.save (record g { status = reached; reached_at = some now }) d.goals;
        notices = Notice.goal_reached g.on_chain_id g.owner g.name g.target_amount ∷ d.notices;
      })
  loud-AnnouncedOnce now id d g h found ne =
      let key : g.on_chain_id ≡ id = b.goals.find_one-key id d.goals g found in
      let row : Goal = record g { status = reached; reached_at = some now } in
      let never : announced id d.notices ≡ 0 = not_announced d id g h found ne in
      let here : b.goals.find_one id (b.goals.save row d.goals) ≡ some row =
        find_one-save_self b.goals id row d.goals key in
      record {
        once = λ j.
            ground
              (arith, h.once j, ==_iff j g.on_chain_id, ap (λ k. announced k d.notices) key, never);
        stored = λ j p. elim (Bool-cases (j == g.on_chain_id)) [
          | inl same ↦
              (row, find_one-save_self b.goals j row d.goals (sym ((==_iff _ _).0 same)), refl)
          | inr other ↦
              save-IsReached b.goals row d.goals j (λ _ _ _. refl) (h.stored j (ground arith))
        ];
      }

  mark-AnnouncedOnce :
      (now id : ℕ) (d : Db b)
      → AnnouncedOnce d
      → AnnouncedOnce (mark_goal_reached_and_notify b now id d).1
  unfolding mark_goal_reached_and_notify Goals.mark_reached
  mark-AnnouncedOnce now id d h = elim (Option-cases (b.goals.find_one id d.goals)) [
    | inl missing ↦
        let e : (mark_goal_reached_and_notify b now id d).1 ≡ d = ground arith in
        subst AnnouncedOnce (sym e) h
    | inr (g, found) ↦ by_status g found g.status refl
  ]
    where
      by_status :
          (g : Goal)
          → b.goals.find_one id d.goals ≡ some g
          → (o : GoalStatus) → g.status ≡ o
          → AnnouncedOnce (mark_goal_reached_and_notify b now id d).1
      by_status g found reached r =
          let e : (mark_goal_reached_and_notify b now id d).1 ≡ d = ground arith in
          subst AnnouncedOnce (sym e) h
      by_status g found _ r =
          let e : (mark_goal_reached_and_notify b now id d).1 ≡ record d {
            goals = b.goals.save (record g { status = reached; reached_at = some now }) d.goals;
            notices = Notice.goal_reached g.on_chain_id g.owner g.name g.target_amount ∷ d.notices;
          } =
            ground arith in
          subst AnnouncedOnce (sym e) (loud-AnnouncedOnce now id d g h found (λ q. cc))

  reached_by-AnnouncedOnce :
      (now : ℕ) (g : Goal) (x y : ℤ) (d : Db b)
      → AnnouncedOnce d
      → AnnouncedOnce (reached_by b now g x y d).1
  unfolding reached_by
  reached_by-AnnouncedOnce now g x y d h = elim (Bool-cases (leb_ℤ y x)) [
    | inl enough ↦ rw enough (mark-AnnouncedOnce now g.on_chain_id d h)
    | inr short ↦ rw short h
  ]

  check_reached-AnnouncedOnce :
      (now : ℕ) (r : Result Goal) (d : Db b)
      → AnnouncedOnce d
      → AnnouncedOnce (then_do (check_reached b now) (r, d)).1
  unfolding check_reached
  check_reached-AnnouncedOnce now (err e) d h = h
  check_reached-AnnouncedOnce now (ok g) d h = elim (Result-cases (big_int g.current_amount)) [
    | inl (e, failed) ↦ rw failed h
    | inr (x, read) ↦ elim (Result-cases (big_int g.target_amount)) [
      | inl (e, failed) ↦ rw (read, failed) h
      | inr (y, read') ↦ rw (read, read') (reached_by-AnnouncedOnce now g x y d h)
    ]
  ]

  announce_settled-AnnouncedOnce :
      (e : EventData) (r : Result (Group × Bool)) (d : Db b)
      → AnnouncedOnce d
      → AnnouncedOnce (then_do (announce_settled b e) (r, d)).1
  unfolding announce_settled
  announce_settled-AnnouncedOnce e (err _) d h = h
  announce_settled-AnnouncedOnce e (ok (g, false)) d h = h
  announce_settled-AnnouncedOnce e (ok (g, true)) d h = record { once = h.once; stored = h.stored }

  after_pure :
      {A : Type 0} (m : Action (Db b) A) (d : Db b)
      → AnnouncedOnce (m d).1
      → AnnouncedOnce ((m >> pure tt) d).1
  after_pure m d h = subst AnnouncedOnce (sym (then_do-pure (λ _. tt) (m d))) h

  deposited-AnnouncedOnce :
      (go : Bool) (m : Action b.positions.Store YieldPosition) (d : Db b)
      → AnnouncedOnce d
      → AnnouncedOnce ((if go then on_positions b m >> pure tt else pure tt) d).1
  deposited-AnnouncedOnce false m d h = h
  deposited-AnnouncedOnce true m d h =
      after_pure (on_positions b m) d (quiet-AnnouncedOnce d _ refl (λ id r. r) h)

  -- Every event keeps it.
  pub apply-AnnouncedOnce :
      (now : ℕ) (topic : Topic) (e : EventData) (d : Db b)
      → AnnouncedOnce d
      → AnnouncedOnce (apply b now topic e d).1
  unfolding apply
  apply-AnnouncedOnce now Topic.goal_created e d h =
      after_pure (on_goals b (Goals.upsert_created b.goals (goal_params e))) d
        (quiet-AnnouncedOnce d _ refl (upsert_created-IsReached b.goals (goal_params e) d.goals) h)
  apply-AnnouncedOnce now Topic.goal_contribution e d h =
      let id = text (or_else e.id e.goal_id) in
      let (r, d') = on_goals b (Goals.apply_contribution b.goals id (amount_text e.amount)) d in
      check_reached-AnnouncedOnce now r d' (
        quiet-AnnouncedOnce d _ refl
          (apply_contribution-IsReached b.goals id (amount_text e.amount) d.goals) h)
  apply-AnnouncedOnce now Topic.goal_reached e d h =
      mark-AnnouncedOnce now (text (or_else e.id e.goal_id)) d h
  apply-AnnouncedOnce now Topic.locked_created e d h =
      after_pure (on_plans b (LockedPlans.upsert_created b.plans (plan_params e))) d
        (quiet-AnnouncedOnce d _ refl (λ id r. r) h)
  apply-AnnouncedOnce now Topic.deposit e d h =
      after_pure
        (on_balances b (
          Balances.credit b.balances b.balance_cache (text (account_field e))
            (amount_text e.amount)))
        d (quiet-AnnouncedOnce d _ refl (λ id r. r) h)
  apply-AnnouncedOnce now Topic.withdraw e d h =
      after_pure
        (on_balances b (
          Balances.set_balance b.balances b.balance_cache (text (account_field e))
            (amount_text e.new_balance)))
        d (quiet-AnnouncedOnce d _ refl (λ id r. r) h)
  apply-AnnouncedOnce now Topic.group_split_settled e d h =
      let id = text (or_else e.id e.group_id) in
      let (r, d') = on_groups b (Groups.mark_settled b.groups now id) d in
      announce_settled-AnnouncedOnce e r d' (quiet-AnnouncedOnce d _ refl (λ id r. r) h)
  apply-AnnouncedOnce now Topic.deposited e d h =
      deposited-AnnouncedOnce (has_owner_and_shares e)
        (Yields.upsert_yield_position b.positions (deposited_owner e) (deposited_shares e)
          (deposited_rate e))
        d h
  apply-AnnouncedOnce now Topic.harvested e d h = quiet-AnnouncedOnce d _ refl (λ id r. r) h
  apply-AnnouncedOnce now _ e d h = h

  -- The events in order, each with its time; an event that throws is passed over.
  abbrev pub apply_all : List (ℕ × Topic × EventData) → Db b → Db b
  apply_all [] d = d
  apply_all ((now, topic, e) ∷ es) d = apply_all es (apply b now topic e d).1

  -- Starting with no notices sent, whatever events are applied, and however often each, no goal is
  -- announced more than once, and every goal that was announced is stored as reached.
  pub announced_once :
      (es : List (ℕ × Topic × EventData)) (d : Db b)
      → d.notices ≡ []
      → (id : ℕ)
      → (announced id (apply_all es d).notices ≤ 1)
        × (0 < announced id (apply_all es d).notices → IsReached b.goals (apply_all es d).goals id)
  announced_once es d none_sent id = let h = all es d start in (h.once id, h.stored id)
    where
      start : AnnouncedOnce d
      start = record {
        once = λ j. rw none_sent (omega arith);
        stored = λ j p. absurd (ground arith);
      }

      all :
          (fs : List (ℕ × Topic × EventData)) (c : Db b)
          → AnnouncedOnce c
          → AnnouncedOnce (apply_all fs c)
      all [] c h = h
      all ((now, topic, e) ∷ fs) c h = all fs _ (apply-AnnouncedOnce now topic e c h)

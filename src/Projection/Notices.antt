-- ===== src/Projection/Notices.antt =====
-- backend/src/savings-projection/savings-projection.service.ts: the goals that were announced, and
-- those stored as reached.
pub mod Once
use stow.Prelude.{
  ℕ, suc, ◌+◌, ◌≤◌, ◌<◌, ◌≡◌, ◌≢◌, refl, sym, ap, ◌∙◌, ◌⊎◌, inl, inr, Bool, true, false, Option,
  none, some, List, [], ◌∷◌, arith, ◌==◌, ==_iff, Bool-cases, Option-cases, some-eq, if◌then◌else◌,
}
use stow.Prelude.Int.{ℤ, leb_ℤ}
use stow.Prelude.Result.{Result, ok, err, pure, Result-cases, then_do, ◌>>◌}
use stow.Prelude.Table.{Table, find_one-save_self}
use stow.Amounts.{Amount, sum_of, big_int}
use stow.Events.{Topic, EventData, or_else, text, amount_text}
use stow.Goals
use stow.Goals.{Goal, GoalStatus, GoalTable, GoalCreated, created_goal}
use stow.Projection.State.{Stores, Db, Notice, on_goals}
use stow.Projection.{apply, announce, mark_goal_reached_and_notify, reached_by, goal_params}

-- How often a goal was announced.
abbrev pub announced : ℕ → List Notice → ℕ
announced id [] = 0
announced id (Notice.goal_reached j _ _ _ ∷ ns) =
    if id == j then suc (announced id ns) else announced id ns
announced id (Notice.group_settled _ _ ∷ ns) = announced id ns

none-ne-some : {A : Type 0} {a : A} → none ≡ some a → ⊥
none-ne-some e = cc

module _ (t : GoalTable) where
  -- The goal is stored as reached.
  abbrev pub IsReached : t.Store → ℕ → Type 0
  IsReached s id = (g : Goal) × (t.find_one id s ≡ some g) × (g.status ≡ GoalStatus.reached)

  -- Saving a row keeps the reached goals, if it is itself reached or takes no reached goal's place.
  pub save-IsReached :
      (h : Goal) (s : t.Store) (id : ℕ)
      → ((g : Goal)
          → t.find_one h.on_chain_id s ≡ some g
          → g.status ≡ GoalStatus.reached
          → h.status ≡ GoalStatus.reached)
      → IsReached s id
      → IsReached (t.save h s) id
  save-IsReached h s id keep (g, found, r) = elim (Bool-cases (id == h.on_chain_id)) [
    | inl same ↦
        let e : h.on_chain_id ≡ id = sym ((==_iff _ _).0 same) in
        (h, find_one-save_self t id h s e, keep g (ap (λ k. t.find_one k s) e ∙ found) r)
    | inr other ↦ (g, t.find_one-save id h s ∙ rw other found, r)
  ]

  -- Two finds of one row.
  same_row :
      (j : ℕ) (s : t.Store) (g g' : Goal)
      → t.find_one j s ≡ some g
      → t.find_one g.on_chain_id s ≡ some g'
      → g ≡ g'
  same_row j s g g' found found' =
      some-eq (sym found ∙ ap (λ k. t.find_one k s) (sym (t.find_one-key j s g found)) ∙ found')

  pub upsert_created-IsReached :
      (p : GoalCreated) (s : t.Store) (id : ℕ)
      → IsReached s id
      → IsReached (Goals.upsert_created t p s).1 id
  unfolding Goals.upsert_created
  upsert_created-IsReached p s id r = elim (Option-cases (t.find_one p.on_chain_id s)) [
    | inl missing ↦ rw missing (
        save-IsReached (created_goal p) s id
          (λ g found _. absurd (none-ne-some (sym missing ∙ found))) r)
    | inr (g, found) ↦ rw found r
  ]

  pub apply_contribution-IsReached :
      (j : ℕ) (a : Amount) (s : t.Store) (id : ℕ)
      → IsReached s id
      → IsReached (Goals.apply_contribution t j a s).1 id
  unfolding Goals.apply_contribution
  apply_contribution-IsReached j a s id r = elim (Option-cases (t.find_one j s)) [
    | inl missing ↦ rw missing r
    | inr (g, found) ↦ elim (Result-cases (sum_of g.current_amount a)) [
      | inl (e, failed) ↦ rw (found, failed) r
      | inr (x, summed) ↦
          rw (found, summed)
            (save-IsReached _ s id
              (λ g' found' r'. ap (λ (x : Goal). x.status) (same_row j s g g' found found') ∙ r') r)
    ]
  ]

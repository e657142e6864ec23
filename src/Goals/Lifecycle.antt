-- ===== src/Goals/Lifecycle.antt =====
-- backend/src/goals/goals.service.ts: a goal through sequences of calls.
use mathlib.Core.Path.{subst}
use stow.Prelude.{
  ℕ, ◌≡◌, ◌≢◌, refl, sym, ap, ◌∙◌, inl, inr, Option, none, some, List, [], ◌∷◌, ◌==◌, ==_iff,
  Bool-cases, Option-cases, some-eq,
}
use stow.Prelude.Result.{Result-cases}
use stow.Amounts.{Amount, sum_of}
use stow.Goals.{
  GoalStatus, active, reached, claimed, Goal, GoalTable, GoalCreated, created_goal,
  find_by_on_chain_id, keep_or_create, upsert_created, apply_contribution, reach, mark_reached,
  claim_at, claim,
}

-- What stays of a goal from one moment to a later one.
pub record Follows (g h : Goal) : Type 0 where
  pub same_id : h.on_chain_id ≡ g.on_chain_id
  pub same_owner : h.owner ≡ g.owner
  pub same_name : h.name ≡ g.name
  pub same_target : h.target_amount ≡ g.target_amount
  pub not_reopened : g.status ≢ active → h.status ≢ active

Follows-refl : (g : Goal) → Follows g g
Follows-refl g = record {
  same_id = refl;
  same_owner = refl;
  same_name = refl;
  same_target = refl;
  not_reopened = λ h. h;
}

Follows-trans : (f g h : Goal) → Follows f g → Follows g h → Follows f h
Follows-trans f g h p q = record {
  same_id = q.same_id ∙ p.same_id;
  same_owner = q.same_owner ∙ p.same_owner;
  same_name = q.same_name ∙ p.same_name;
  same_target = q.same_target ∙ p.same_target;
  not_reopened = λ n. q.not_reopened (p.not_reopened n);
}

closed-Follows :
    (g : Goal) (o : GoalStatus) (at : Option ℕ)
    → o ≢ active
    → Follows g (record g { status = o; reached_at = at })
closed-Follows g o at ne = record {
  same_id = refl;
  same_owner = refl;
  same_name = refl;
  same_target = refl;
  not_reopened = λ _. ne;
}

-- The calls that write goals; `marks` has its time first.
pub data GoalCall : Type 0 where
  creates : GoalCreated → GoalCall
  contributes : ℕ → Amount → GoalCall
  marks : ℕ → ℕ → GoalCall
  claims : ℕ → GoalCall

none-ne-some : {A : Type 0} {a : A} → none ≡ some a → ⊥
none-ne-some e = cc

module _ (t : GoalTable) where
  -- The store after a call; a call that throws is caught above the service.
  abbrev pub step : GoalCall → t.Store → t.Store
  step (creates p) s = (upsert_created t p s).1
  step (contributes id a) s = (apply_contribution t id a s).1
  step (marks now id) s = (mark_reached t now id s).1
  step (claims id) s = (claim t id s).1

  abbrev pub steps : List GoalCall → t.Store → t.Store
  steps [] s = s
  steps (q ∷ qs) s = steps qs (step q s)

  -- The row of `id` after the writes that led from `s` to `s'`.
  abbrev Kept : t.Store → t.Store → Type 0
  Kept s s' =
      (id : ℕ) (g : Goal)
      → t.find_one id s ≡ some g
      → (h : Goal) × (t.find_one id s' ≡ some h) × Follows g h

  Kept-refl : (s : t.Store) → Kept s s
  Kept-refl s id g e = (g, e, Follows-refl g)

  save-Kept :
      (id : ℕ) (g h : Goal) (s : t.Store)
      → t.find_one id s ≡ some g
      → Follows g h
      → Kept s (t.save h s)
  save-Kept id g h s e f j g' e' = elim (Bool-cases (j == h.on_chain_id)) [
    | inl same ↦
        let j≡id : j ≡ id = (==_iff _ _).0 same ∙ f.same_id ∙ t.find_one-key id s g e in
        let g≡g' : some g ≡ some g' = sym e ∙ ap (λ k. t.find_one k s) (sym j≡id) ∙ e' in
        (h, t.find_one-save j h s ∙ rw same refl, subst (λ x. Follows x h) (some-eq g≡g') f)
    | inr other ↦ (g', t.find_one-save j h s ∙ rw other e', Follows-refl g')
  ]

  save-Kept_fresh :
      (h : Goal) (s : t.Store) → t.find_one h.on_chain_id s ≡ none → Kept s (t.save h s)
  save-Kept_fresh h s e j g e' = elim (Bool-cases (j == h.on_chain_id)) [
    | inl same ↦
        absurd (none-ne-some (sym e ∙ ap (λ k. t.find_one k s) (sym ((==_iff _ _).0 same)) ∙ e'))
    | inr other ↦ (g, t.find_one-save j h s ∙ rw other e', Follows-refl g)
  ]

  upsert_created-Kept : (p : GoalCreated) (s : t.Store) → Kept s (upsert_created t p s).1
  unfolding upsert_created keep_or_create
  upsert_created-Kept p s = elim (Option-cases (t.find_one p.on_chain_id s)) [
    | inl missing ↦ rw missing (save-Kept_fresh (created_goal p) s missing)
    | inr (g, found) ↦ rw found (Kept-refl s)
  ]

  apply_contribution-Kept :
      (id : ℕ) (a : Amount) (s : t.Store) → Kept s (apply_contribution t id a s).1
  unfolding apply_contribution find_by_on_chain_id
  apply_contribution-Kept id a s = elim (Option-cases (t.find_one id s)) [
    | inl missing ↦ rw missing (Kept-refl s)
    | inr (g, found) ↦ elim (Result-cases (sum_of g.current_amount a)) [
      | inl (e, failed) ↦ rw (found, failed) (Kept-refl s)
      | inr (x, summed) ↦
          rw (found, summed)
            (save-Kept id g _ s found (record {
              same_id = refl;
              same_owner = refl;
              same_name = refl;
              same_target = refl;
              not_reopened = λ h. h;
            }))
    ]
  ]

  reach-Kept :
      (now id : ℕ) (g : Goal) (o : GoalStatus) (s : t.Store)
      → t.find_one id s ≡ some g
      → Kept s (reach t now g o s).1
  unfolding reach
  reach-Kept now id g reached s e = Kept-refl s
  reach-Kept now id g o s e = save-Kept id g _ s e (closed-Follows g reached (some now) (λ e'. cc))

  mark_reached-Kept : (now id : ℕ) (s : t.Store) → Kept s (mark_reached t now id s).1
  unfolding mark_reached find_by_on_chain_id
  mark_reached-Kept now id s = elim (Option-cases (t.find_one id s)) [
    | inl missing ↦ rw missing (Kept-refl s)
    | inr (g, found) ↦ rw found (reach-Kept now id g g.status s found)
  ]

  claim_at-Kept :
      (id : ℕ) (g : Goal) (o : GoalStatus) (s : t.Store)
      → t.find_one id s ≡ some g
      → Kept s (claim_at t g o s).1
  unfolding claim_at
  claim_at-Kept id g reached s e =
      save-Kept id g _ s e (closed-Follows g claimed g.reached_at (λ e'. cc))
  claim_at-Kept id g _ s e = Kept-refl s

  claim-Kept : (id : ℕ) (s : t.Store) → Kept s (claim t id s).1
  unfolding claim find_by_on_chain_id
  claim-Kept id s = elim (Option-cases (t.find_one id s)) [
    | inl missing ↦ rw missing (Kept-refl s)
    | inr (g, found) ↦ rw found (claim_at-Kept id g g.status s found)
  ]

  step-Kept : (q : GoalCall) (s : t.Store) → Kept s (step q s)
  step-Kept (creates p) s = upsert_created-Kept p s
  step-Kept (contributes id a) s = apply_contribution-Kept id a s
  step-Kept (marks now id) s = mark_reached-Kept now id s
  step-Kept (claims id) s = claim-Kept id s

  -- Through any sequence of calls a goal that is found stays found, with its id, owner, name and
  -- target, and once it is not active it is never active again.
  pub steps-Follows :
      (qs : List GoalCall) (s : t.Store) (id : ℕ) (g : Goal)
      → t.find_one id s ≡ some g
      → (h : Goal) × (t.find_one id (steps qs s) ≡ some h) × Follows g h
  steps-Follows [] s id g e = (g, e, Follows-refl g)
  steps-Follows (q ∷ qs) s id g e =
      let (h, e', f) = step-Kept q s id g e in
      let (k, e'', f') = steps-Follows qs (step q s) id h e' in (k, e'', Follows-trans g h k f f')

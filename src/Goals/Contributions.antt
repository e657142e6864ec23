-- ===== src/Goals/Contributions.antt =====
-- backend/src/goals/goals.service.ts: sequences of contributions to a goal.
use stow.Prelude.{
  ℕ, ◌≡◌, ◌≢◌, refl, ◌∙◌, inl, inr, some, List, [], ◌∷◌, arith, ==_iff, Option-cases,
}
use stow.Prelude.Int.{ℤ, pos, ◌+ℤ◌, int_laws}
use stow.Prelude.Result.{Result-cases}
use stow.Prelude.Table.{find_one-save_self}
use stow.Amounts.{Amount, decimal, sum_of}
use stow.Goals.{Goal, GoalTable, find_by_on_chain_id, apply_contribution}

abbrev pub total : List ℤ → ℤ
total [] = pos 0
total (x ∷ xs) = x +ℤ total xs

module _ (t : GoalTable) (id : ℕ) where
  abbrev pub contribute_all : List ℤ → t.Store → t.Store
  contribute_all [] s = s
  contribute_all (x ∷ xs) s = contribute_all xs (apply_contribution t id (decimal x) s).1

  contribution_lem :
      (x : ℤ) (z : ℤ) (s : t.Store) (g : Goal)
      → t.find_one id s ≡ some g
      → g.current_amount ≡ decimal z
      → t.find_one id (apply_contribution t id (decimal x) s).1
        ≡ some (record g { current_amount = decimal (z +ℤ x) })
  unfolding apply_contribution find_by_on_chain_id sum_of
  contribution_lem x z s g found e =
      let h : Goal = record g { current_amount = decimal (z +ℤ x) } in
      ground (arith, find_one-save_self t id h s (t.find_one-key id s g found))

  contribution_others :
      (a : Amount) (s : t.Store) (j : ℕ)
      → j ≢ id
      → t.find_one j (apply_contribution t id a s).1 ≡ t.find_one j s
  unfolding apply_contribution find_by_on_chain_id
  contribution_others a s j ne = elim (Option-cases (t.find_one id s)) [
    | inl missing ↦ rw missing refl
    | inr (g, found) ↦ elim (Result-cases (sum_of g.current_amount a)) [
      | inl (e, failed) ↦ rw (found, failed) refl
      | inr (x, summed) ↦
          let h : Goal = record g { current_amount = x } in
          rw (found, summed)
            (ground
              (arith, t.find_one-save j h s, t.find_one-key id s g found, ==_iff j g.on_chain_id))
    ]
  ]

  -- After any contributions to a goal that is found with a readable amount, its amount is the old
  -- one plus their sum, the rest of it is as before, and every other goal is as before.
  pub contribute_all_lem :
      (xs : List ℤ) (z : ℤ) (s : t.Store) (g : Goal)
      → t.find_one id s ≡ some g
      → g.current_amount ≡ decimal z
      → (t.find_one id (contribute_all xs s)
          ≡ some (record g { current_amount = decimal (z +ℤ total xs) }))
        × ((j : ℕ) → j ≢ id → t.find_one j (contribute_all xs s) ≡ t.find_one j s)
  contribute_all_lem [] z s g found e =
      let same : z ≡ z +ℤ pos 0 = omega int_laws in (ground (arith, same), λ j ne. refl)
  contribute_all_lem (x ∷ xs) z s g found e =
      let g' : Goal = record g { current_amount = decimal (z +ℤ x) } in
      let s' : t.Store = (apply_contribution t id (decimal x) s).1 in
      let (current, others) =
        contribute_all_lem xs (z +ℤ x) s' g' (contribution_lem x z s g found e) refl in
      let regroup : z +ℤ x +ℤ total xs ≡ z +ℤ (x +ℤ total xs) = omega int_laws in
      (rw (← regroup) current, λ j ne. others j ne ∙ contribution_others (decimal x) s j ne)

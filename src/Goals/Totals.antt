-- ===== src/Goals/Totals.antt =====
-- The totals of a goal summary.
use stow.Prelude.{
  ◌+◌, ◌≡◌, refl, ap, ◌∙◌, Bool, true, false, List, [], ◌∷◌, length, select, All, arith,
}
use stow.Prelude.Int.{ℤ, pos, ◌+ℤ◌, int_laws}
use stow.Prelude.Result.{ok}
use stow.Amounts.{Amount, big_int, decimal, blank, malformed}
use stow.Goals.{claimed, Goal, GoalSummary, is_active, is_reached, sum_field, summary}

-- The integer that an amount stands for, 0 where it stands for none.
abbrev pub value : Amount → ℤ
value (decimal z) = z
value blank = pos 0
value (malformed _) = pos 0

abbrev pub IsReadable : Amount → Type 0
IsReadable a = big_int a ≡ ok (value a)

abbrev pub total_of : (Goal → Amount) → List Goal → ℤ
total_of field [] = pos 0
total_of field (g ∷ gs) = value (field g) +ℤ total_of field gs

abbrev pub is_claimed : Goal → Bool
is_claimed g = elim (g.status) [ claimed ↦ true | _ ↦ false ]

sum_field-eq-total :
    (field : Goal → Amount) (z : ℤ) (gs : List Goal)
    → All (λ g. IsReadable (field g)) gs
    → sum_field field z gs ≡ ok (z +ℤ total_of field gs)
unfolding sum_field
sum_field-eq-total field z [] h = ap ok (omega int_laws)
sum_field-eq-total field z (g ∷ gs) h =
    rw (h.0, sum_field)
      (sum_field-eq-total field (z +ℤ value (field g)) gs h.1 ∙ ap ok (omega int_laws))

counts :
    (gs : List Goal)
    → length gs
      ≡ length (select is_active gs) + length (select is_reached gs) + length (select is_claimed gs)
counts [] = omega arith
counts (g ∷ gs) = ground (arith, counts gs)

-- Where every amount can be read the summary exists; its totals are the sums of the targets and of
-- the saved amounts, and each goal is counted, and in one status only.
pub summary_lem :
    (gs : List Goal)
    → All (λ g. IsReadable g.target_amount) gs
    → All (λ g. IsReadable g.current_amount) gs
    → (r : GoalSummary) × (summary gs ≡ ok r)
      × (r.total_target ≡ total_of (λ g. g.target_amount) gs)
      × (r.total_saved ≡ total_of (λ g. g.current_amount) gs)
      × (r.total_goals ≡ r.active_goals + r.reached_goals + length (select is_claimed gs))
unfolding summary
summary_lem gs ht hc = (
  record {
    total_goals = length gs;
    active_goals = length (select is_active gs);
    reached_goals = length (select is_reached gs);
    total_target = pos 0 +ℤ total_of (λ g. g.target_amount) gs;
    total_saved = pos 0 +ℤ total_of (λ g. g.current_amount) gs;
  },
  rw
      (
        sum_field-eq-total (λ g. g.target_amount) (pos 0) gs ht,
        sum_field-eq-total (λ g. g.current_amount) (pos 0) gs hc,
        summary,
      )
      refl,
  omega int_laws,
  omega int_laws,
  counts gs,
)

-- ===== src/Filtering/Named.antt =====
-- backend/src/common/filtering.service.ts: the names of the parameters in the clauses of the
-- statuses.
use stow.Prelude.{
  ℕ, suc, ◌≤◌, ◌<◌, ◌≡◌, refl, Bool, true, false, Option, List, [], ◌∷◌, ◌++◌, All, arith, ◌&&◌,
  ◌||◌,
}
use stow.Filtering.{
  operator_or_eq, condition_tests, condition_values, index_after, group_tests, group_values,
  index_after_all,
}
use stow.Filtering.Types.{
  Value, StatusFilterCondition, compares, ParameterTest, Sql, one, any_of, FilterClause,
}
use stow.Filtering.Meaning.{Database, tests_hold, groups_hold, AreBelow, AllBelow, Rise, Agrees}

-- What a status says of a row: every condition of one of its groups.
module _ (db : Database) (row : ℕ → Value) where
  abbrev pub condition_holds : StatusFilterCondition → Bool
  condition_holds c = db.holds (compares (operator_or_eq c.operator)) (row c.field) c.value

  abbrev pub every_holds : List StatusFilterCondition → Bool
  every_holds [] = true
  every_holds (c ∷ cs) = condition_holds c && every_holds cs

  abbrev pub any_group_holds : List (List StatusFilterCondition) → Bool
  any_group_holds [] = false
  any_group_holds (g ∷ gs) = every_holds g || any_group_holds gs

abbrev pub TestsBelow : ℕ → List ParameterTest → Type 0
TestsBelow n ts = All (λ (t : ParameterTest). t.name < n) ts

TestsBelow-later : (n m : ℕ) (ts : List ParameterTest) → n ≤ m → TestsBelow n ts → TestsBelow m ts
TestsBelow-later n m [] le below = tt
TestsBelow-later n m (t ∷ ts) le below = (omega arith, TestsBelow-later n m ts le below.1)

GroupsBelow-later :
    (n m : ℕ) (gs : List (List ParameterTest))
    → n ≤ m
    → All (TestsBelow n) gs
    → All (TestsBelow m) gs
GroupsBelow-later n m [] le below = tt
GroupsBelow-later n m (g ∷ gs) le below =
    (TestsBelow-later n m g le below.0, GroupsBelow-later n m gs le below.1)

AreBelow-later : (n m : ℕ) (q : Sql) → n ≤ m → AreBelow n q → AreBelow m q
AreBelow-later n m (one t) le below = omega arith
AreBelow-later n m (any_of gs) le below = GroupsBelow-later n m gs le below

pub AllBelow-push :
    (n m : ℕ) (cls : List FilterClause) (cl : FilterClause)
    → n ≤ m
    → AllBelow n cls
    → AreBelow m cl.sql
    → AllBelow m (cls ++ cl ∷ [])
AllBelow-push n m [] cl le below last = (last, tt)
AllBelow-push n m (x ∷ xs) cl le below last =
    (AreBelow-later n m x.sql le below.0, AllBelow-push n m xs cl le below.1 last)

index_after-≤ : (n : ℕ) (g : List StatusFilterCondition) → n ≤ index_after n g
index_after-≤ n [] = omega arith
index_after-≤ n (c ∷ cs) = let later = index_after-≤ (suc n) cs in omega arith

pub index_after_all-≤ : (n : ℕ) (gs : List (List StatusFilterCondition)) → n ≤ index_after_all n gs
index_after_all-≤ n [] = omega arith
index_after_all-≤ n (g ∷ gs) =
    let one = index_after-≤ n g in let later = index_after_all-≤ (index_after n g) gs in omega arith

condition_tests-below :
    (n m : ℕ) (g : List StatusFilterCondition)
    → index_after n g ≤ m
    → TestsBelow m (condition_tests n g)
condition_tests-below n m [] le = tt
condition_tests-below n m (c ∷ cs) le =
    let later = index_after-≤ (suc n) cs in (omega arith, condition_tests-below (suc n) m cs le)

pub group_tests-below :
    (n m : ℕ) (gs : List (List StatusFilterCondition))
    → index_after_all n gs ≤ m
    → All (TestsBelow m) (group_tests n gs)
group_tests-below n m [] le = tt
group_tests-below n m (g ∷ gs) le =
    let later = index_after_all-≤ (index_after n g) gs in
    (condition_tests-below n m g (omega arith), group_tests-below (index_after n g) m gs le)

condition_values-Rise :
    (n : ℕ) (g : List StatusFilterCondition) (ps : List (ℕ × Value))
    → Rise (index_after n g) ps
    → Rise n (condition_values n g ++ ps)
condition_values-Rise n [] ps rise = rise
condition_values-Rise n (c ∷ cs) ps rise = (omega arith, condition_values-Rise (suc n) cs ps rise)

pub group_values-Rise :
    (n : ℕ) (gs : List (List StatusFilterCondition)) → Rise n (group_values n gs)
group_values-Rise n [] = tt
group_values-Rise n (g ∷ gs) =
    condition_values-Rise n g (group_values (index_after n g) gs)
      (group_values-Rise (index_after n g) gs)

module _ (db : Database) (row : ℕ → Value) (look : ℕ → Option Value) where
  -- A group whose parameters a look-up gives says what its conditions say.
  tests_hold-conditions :
      (n : ℕ) (g : List StatusFilterCondition) (ps : List (ℕ × Value))
      → Agrees look (condition_values n g ++ ps)
      → (tests_hold db row look (condition_tests n g) ≡ every_holds db row g) × Agrees look ps
  tests_hold-conditions n [] ps agrees = (refl, agrees)
  tests_hold-conditions n (c ∷ cs) ps agrees =
      let later = tests_hold-conditions (suc n) cs ps agrees.1 in
      (rw (agrees.0, later.0) refl, later.1)

  pub groups_hold-conditions :
      (n : ℕ) (gs : List (List StatusFilterCondition))
      → Agrees look (group_values n gs)
      → groups_hold db row look (group_tests n gs) ≡ any_group_holds db row gs
  groups_hold-conditions n [] agrees = refl
  groups_hold-conditions n (g ∷ gs) agrees =
      let this = tests_hold-conditions n g (group_values (index_after n g) gs) agrees in
      rw (this.0, groups_hold-conditions (index_after n g) gs this.1) refl

-- ===== src/Filtering/Meaning.antt =====
-- What the clauses of a plan select, where the database reads the parameters of all clauses from
-- one map (the query builder's), in which a later value replaces an earlier one of its name. How
-- the database compares is a parameter.
use mathlib.Core.List.{append-nil, append_assoc}
use stow.Prelude.{
  ℕ, suc, ◌≤◌, ◌<◌, ◌≡◌, refl, sym, ap, ◌∙◌, Bool, true, false, Option, none, some, List, [], ◌∷◌,
  ◌++◌, All, arith, ◌==◌, ==_refl, ◌&&◌, ◌||◌, if◌then◌else◌,
}
use stow.Filtering.Types.{
  Relation, Value, ParameterTest, Sql, one, any_of, FilterClause, FilterCombination, conjunction,
  disjunction,
}

-- The comparisons of the database, of a column's value with a parameter's.
pub record Database : Type 0 where
  pub holds : Relation → Value → Value → Bool

abbrev pub later_or : Option Value → Bool → Value → Option Value
later_or (some w) same v = some w
later_or none same v = if same then some v else none

abbrev pub find_value : ℕ → List (ℕ × Value) → Option Value
find_value k [] = none
find_value k ((j, v) ∷ m) = later_or (find_value k m) (k == j) v

abbrev pub parameters_of : List FilterClause → List (ℕ × Value)
parameters_of [] = []
parameters_of (cl ∷ cls) = cl.parameters ++ parameters_of cls

abbrev pub all_hold : List Bool → Bool
all_hold [] = true
all_hold (b ∷ bs) = b && all_hold bs

abbrev pub some_holds : List Bool → Bool
some_holds [] = false
some_holds (b ∷ bs) = b || some_holds bs

-- `applyFilters`: the clauses joined by the combination, and no condition where there are none.
abbrev pub combined : FilterCombination → List Bool → Bool
combined c [] = true
combined conjunction (b ∷ bs) = all_hold (b ∷ bs)
combined disjunction (b ∷ bs) = some_holds (b ∷ bs)

module _ (db : Database) (row : ℕ → Value) where
  abbrev given_holds : ParameterTest → Option Value → Bool
  given_holds t none = false
  given_holds t (some v) = db.holds t.relation (row t.column) v

  abbrev pub test_holds : (ℕ → Option Value) → ParameterTest → Bool
  test_holds look t = given_holds t (look t.name)

  abbrev pub tests_hold : (ℕ → Option Value) → List ParameterTest → Bool
  tests_hold look [] = true
  tests_hold look (t ∷ ts) = test_holds look t && tests_hold look ts

  abbrev pub groups_hold : (ℕ → Option Value) → List (List ParameterTest) → Bool
  groups_hold look [] = false
  groups_hold look (g ∷ gs) = tests_hold look g || groups_hold look gs

  abbrev pub sql_holds : (ℕ → Option Value) → Sql → Bool
  sql_holds look (one t) = test_holds look t
  sql_holds look (any_of gs) = groups_hold look gs

  abbrev pub clauses_hold : (ℕ → Option Value) → List FilterClause → List Bool
  clauses_hold look [] = []
  clauses_hold look (cl ∷ cls) = sql_holds look cl.sql ∷ clauses_hold look cls

  -- What the clauses say of the row, each on its own.
  abbrev pub outcome : List FilterClause → List Bool
  outcome cls = clauses_hold (λ k. find_value k (parameters_of cls)) cls

-- The names in a clause are below a number.
abbrev pub AreBelow : ℕ → Sql → Type 0
AreBelow n (one t) = t.name < n
AreBelow n (any_of gs) = All (All (λ (t : ParameterTest). t.name < n)) gs

abbrev pub AllBelow : ℕ → List FilterClause → Type 0
AllBelow n cls = All (λ (cl : FilterClause). AreBelow n cl.sql) cls

-- The names of the parameters rise from a number on.
abbrev pub Rise : ℕ → List (ℕ × Value) → Type 0
Rise n [] = Unit {0}
Rise n ((k, v) ∷ ps) = (n ≤ k) × Rise (suc k) ps

pub Rise-none : (n k : ℕ) (ps : List (ℕ × Value)) → Rise n ps → k < n → find_value k ps ≡ none
Rise-none n k [] rise lt = refl
Rise-none n k ((j, v) ∷ ps) rise lt =
    let later = Rise-none (suc j) k ps rise.1 (omega arith) in
    let other : (k == j) ≡ false = ground arith in rw (later, other) refl

-- A look-up gives every parameter its value.
abbrev pub Agrees : (ℕ → Option Value) → List (ℕ × Value) → Type 0
Agrees look ps = All (λ (p : ℕ × Value). look p.0 ≡ some p.1) ps

Agrees-behind :
    (j : ℕ) (w : Value) (m ps : List (ℕ × Value))
    → Agrees (λ k. find_value k m) ps
    → Agrees (λ k. find_value k ((j, w) ∷ m)) ps
Agrees-behind j w m [] agrees = tt
Agrees-behind j w m ((k, v) ∷ ps) agrees = (rw agrees.0 refl, Agrees-behind j w m ps agrees.1)

pub Rise-Agrees : (n : ℕ) (ps : List (ℕ × Value)) → Rise n ps → Agrees (λ k. find_value k ps) ps
Rise-Agrees n [] rise = tt
Rise-Agrees n ((k, v) ∷ ps) rise =
    let last = Rise-none (suc k) k ps rise.1 (omega arith) in
    (rw (last, ==_refl k) refl, Agrees-behind k v ps ps (Rise-Agrees (suc k) ps rise.1))

pub Agrees-append :
    (m ps qs : List (ℕ × Value))
    → Agrees (λ k. find_value k ps) qs
    → Agrees (λ k. find_value k (m ++ ps)) qs
Agrees-append [] ps qs agrees = agrees
Agrees-append ((j, w) ∷ m) ps qs agrees =
    Agrees-behind j w (m ++ ps) qs (Agrees-append m ps qs agrees)

-- New parameters from a number on do not show in the look-ups below it.
pub find_value-append :
    (n k : ℕ) (ps qs : List (ℕ × Value))
    → Rise n qs
    → k < n
    → find_value k (ps ++ qs) ≡ find_value k ps
find_value-append n k [] qs rise lt = Rise-none n k qs rise lt
find_value-append n k ((j, v) ∷ ps) qs rise lt =
    ap (λ o. later_or o (k == j) v) (find_value-append n k ps qs rise lt)

pub parameters_of-append :
    (xs ys : List FilterClause) → parameters_of (xs ++ ys) ≡ parameters_of xs ++ parameters_of ys
parameters_of-append [] ys = refl
parameters_of-append (x ∷ xs) ys =
    ap (λ ps. x.parameters ++ ps) (parameters_of-append xs ys)
    ∙ sym (append_assoc x.parameters (parameters_of xs) (parameters_of ys))

-- Two look-ups that agree below a number give what is named below it the same meaning.
module _ (db : Database) (row : ℕ → Value) (n : ℕ) (look look' : ℕ → Option Value)
    (same : (k : ℕ) → k < n → look k ≡ look' k) where
  tests_hold-same :
      (ts : List ParameterTest)
      → All (λ (t : ParameterTest). t.name < n) ts
      → tests_hold db row look ts ≡ tests_hold db row look' ts
  tests_hold-same [] below = refl
  tests_hold-same (t ∷ ts) below = rw (same t.name below.0, tests_hold-same ts below.1) refl

  groups_hold-same :
      (gs : List (List ParameterTest))
      → All (All (λ (t : ParameterTest). t.name < n)) gs
      → groups_hold db row look gs ≡ groups_hold db row look' gs
  groups_hold-same [] below = refl
  groups_hold-same (g ∷ gs) below = rw (tests_hold-same g below.0, groups_hold-same gs below.1) refl

  sql_holds-same : (q : Sql) → AreBelow n q → sql_holds db row look q ≡ sql_holds db row look' q
  sql_holds-same (one t) below = rw (same t.name below) refl
  sql_holds-same (any_of gs) below = groups_hold-same gs below

  pub clauses_hold-same :
      (cls : List FilterClause)
      → AllBelow n cls
      → clauses_hold db row look cls ≡ clauses_hold db row look' cls
  clauses_hold-same [] below = refl
  clauses_hold-same (cl ∷ cls) below =
      rw (sql_holds-same cl.sql below.0, clauses_hold-same cls below.1) refl

pub clauses_hold-append :
    (db : Database) (row : ℕ → Value) (look : ℕ → Option Value) (xs ys : List FilterClause)
    → clauses_hold db row look (xs ++ ys)
      ≡ clauses_hold db row look xs ++ clauses_hold db row look ys
clauses_hold-append db row look [] ys = refl
clauses_hold-append db row look (x ∷ xs) ys =
    ap (λ bs. sql_holds db row look x.sql ∷ bs) (clauses_hold-append db row look xs ys)

-- A clause whose parameters rise from the number below which all earlier names are: the earlier
-- clauses say what they said, and it reads its own parameters.
pub outcome-push :
    (db : Database) (row : ℕ → Value) (n : ℕ) (cls : List FilterClause) (cl : FilterClause)
    → AllBelow n cls
    → Rise n cl.parameters
    → outcome db row (cls ++ cl ∷ [])
      ≡ outcome db row cls
        ++ sql_holds db row (λ k. find_value k (parameters_of cls ++ cl.parameters)) cl.sql ∷ []
outcome-push db row n cls cl below rise =
    ap (λ ps. clauses_hold db row (λ k. find_value k ps) (cls ++ cl ∷ []))
      (parameters_of-append cls (cl ∷ [])
        ∙ ap (λ qs. parameters_of cls ++ qs) (append-nil cl.parameters))
    ∙ clauses_hold-append db row (λ k. find_value k (parameters_of cls ++ cl.parameters)) cls
        (cl ∷ [])
    ∙ ap
        (λ bs.
          bs
          ++ sql_holds db row (λ k. find_value k (parameters_of cls ++ cl.parameters)) cl.sql ∷ [])
        (clauses_hold-same db row n (λ k. find_value k (parameters_of cls ++ cl.parameters))
          (λ k. find_value k (parameters_of cls))
          (λ k lt. find_value-append n k (parameters_of cls) cl.parameters rise lt) cls below)

-- ===== src/Filtering/Steps.antt =====
-- backend/src/common/filtering.service.ts: the steps that push clauses, and what the clauses so far
-- say of a row.
use mathlib.Core.List.{append-nil, append_assoc}
use stow.Prelude.{ℕ, suc, ◌≡◌, refl, sym, ap, ◌∙◌, Bool, List, [], ◌∷◌, ◌++◌, arith}
use stow.Prelude.Result.{Result, ok, err, Action, then_do, lift}
use stow.Filtering.{group_tests, group_values, index_after_all, push_test, push_statuses}
use stow.Filtering.Types.{
  Relation, Value, StatusFilterCondition, one, any_of, FilterClause, Building,
}
use stow.Filtering.Meaning.{
  Database, find_value, parameters_of, sql_holds, outcome, AllBelow, Rise, Rise-Agrees,
  Agrees-append, outcome-push,
}
use stow.Filtering.Named.{
  any_group_holds, AllBelow-push, index_after_all-≤, group_tests-below, group_values-Rise,
  groups_hold-conditions,
}

abbrev pub and_then : {A B : Type 0} → Result A → (A → Result B) → Result B
and_then (err e) f = err e
and_then (ok a) f = f a

-- The meanings of two parts of a request, in their order.
abbrev pub both : Result (List Bool) → Result (List Bool) → Result (List Bool)
both x y = and_then x (λ ms. and_then y (λ ns. ok (ms ++ ns)))

module _ (db : Database) (row : ℕ → Value) where
  -- A step either throws what it is said to throw, or adds clauses that say what it is said to add
  -- to what the earlier ones say.
  abbrev pub Says : Result (Unit {0}) × Building → List Bool → Result (List Bool) → Type 0
  Says (ok _, b) before (ok ms) =
      AllBelow b.parameter_index b.clauses × (outcome db row b.clauses ≡ before ++ ms)
  Says (err e, b) before (err e') = e ≡ e'
  Says (ok _, b) before (err e) = ⊥
  Says (err e, b) before (ok ms) = ⊥

  -- A step, whatever was said before it.
  abbrev pub SaysOf : Action Building (Unit {0}) → Result (List Bool) → Type 0
  SaysOf m r =
      (b : Building)
      → AllBelow b.parameter_index b.clauses
      → Says (m b) (outcome db row b.clauses) r

  pub push_test-SaysOf :
      (relation : Relation) (column : ℕ) (value : Value)
      → SaysOf (push_test relation column value) (ok (db.holds relation (row column) value ∷ []))
  unfolding push_test
  push_test-SaysOf relation column value b below =
      let n = b.parameter_index in
      let cl : FilterClause = record {
        sql = one (record { relation = relation; column = column; name = n });
        parameters = (n, value) ∷ [];
      } in
      let ps : List (ℕ × Value) = (n, value) ∷ [] in
      let rise : Rise n ps = (omega arith, tt) in
      let found = Agrees-append (parameters_of b.clauses) ps ps (Rise-Agrees n ps rise) in
      (
        AllBelow-push n (suc n) b.clauses cl (omega arith) below (omega arith),
        outcome-push db row n b.clauses cl below rise
            ∙ ap (λ o. outcome db row b.clauses ++ sql_holds db row (λ k. o) cl.sql ∷ []) found.0,
      )

  pub push_statuses-SaysOf :
      (groups : List (List StatusFilterCondition))
      → SaysOf (push_statuses groups) (ok (any_group_holds db row groups ∷ []))
  unfolding push_statuses
  push_statuses-SaysOf groups b below =
      let n = b.parameter_index in
      let ps = group_values n groups in
      let cl : FilterClause = record { sql = any_of (group_tests n groups); parameters = ps } in
      let rise = group_values-Rise n groups in
      let found = Agrees-append (parameters_of b.clauses) ps ps (Rise-Agrees n ps rise) in
      (
        AllBelow-push n (index_after_all n groups) b.clauses cl (index_after_all-≤ n groups) below
            (group_tests-below n (index_after_all n groups) groups (omega arith)),
        outcome-push db row n b.clauses cl below rise
            ∙ ap (λ t. outcome db row b.clauses ++ t ∷ [])
                (groups_hold-conditions db row (λ k. find_value k (parameters_of b.clauses ++ ps)) n
                  groups found),
      )

  -- Nothing is pushed.
  pub pure-SaysOf : SaysOf (λ b. (ok tt, b)) (ok [])
  pure-SaysOf b below = (below, sym (append-nil (outcome db row b.clauses)))

  after-Says :
      (before before' ms : List Bool) (q : Result (Unit {0}) × Building) (y : Result (List Bool))
      → before' ≡ before ++ ms
      → Says q before' y
      → Says q before (and_then y (λ ns. ok (ms ++ ns)))
  after-Says before before' ms (err e, b) (err e') eq said = said
  after-Says before before' ms (err e, b) (ok ns) eq said = absurd said
  after-Says before before' ms (ok _, b) (err e) eq said = absurd said
  after-Says before before' ms (ok _, b) (ok ns) eq said =
      (said.0, said.1 ∙ ap (λ bs. bs ++ ns) eq ∙ append_assoc before ms ns)

  -- One step after another.
  both-Says :
      (p : Result (Unit {0}) × Building) (before : List Bool) (x y : Result (List Bool))
      (k : Action Building (Unit {0}))
      → Says p before x
      → SaysOf k y
      → Says (then_do (λ _. k) p) before (both x y)
  both-Says (err e, b) before (err e') y k said later = said
  both-Says (err e, b) before (ok ms) y k said later = absurd said
  both-Says (ok _, b) before (err e) y k said later = absurd said
  both-Says (ok _, b) before (ok ms) y k said later =
      after-Says before (outcome db row b.clauses) ms (k b) y said.1 (later b said.0)

  pub then-SaysOf :
      (m k : Action Building (Unit {0})) (x y : Result (List Bool))
      → SaysOf m x
      → SaysOf k y
      → SaysOf (λ b. then_do (λ _. k) (m b)) (both x y)
  then-SaysOf m k x y first later b below =
      both-Says (m b) (outcome db row b.clauses) x y k (first b below) later

  -- A step after a reading that may throw.
  pub lift-SaysOf :
      {A : Type 0} (r : Result A) (k : A → Action Building (Unit {0}))
      (meaning : A → Result (List Bool))
      → ((a : A) → SaysOf (k a) (meaning a))
      → SaysOf (λ b. then_do k (lift r b)) (and_then r meaning)
  lift-SaysOf (err e) k meaning says b below = refl
  lift-SaysOf (ok a) k meaning says b below = says a b below

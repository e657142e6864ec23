-- ===== src/Filtering/Ranges.antt =====
-- backend/src/common/filtering.service.ts: a range with both ends in a request whose combination is
-- `OR`.
use stow.Prelude.{
  ℕ, ◌≡◌, refl, sym, ap, ◌∙◌, Bool, true, false, Option, none, some, List, [], ◌∷◌, ◌++◌, arith,
  ◌||◌, inl, inr, Bool-cases,
}
use stow.Prelude.Int.{ℤ, ltb_ℤ, leb_ℤ}
use stow.Prelude.Result.{Result, ok, err}
use stow.Filtering.{read_given, get_field, is_inverted}
use stow.Filtering.Types.{
  FilterFieldConfig, Value, EntityFilterConfig, RangeFilter, FilteringRequest, FilterPlan,
  FilterSort, Readers, date, at_least, at_most, whole, disjunction,
}
use stow.Filtering.Meaning.{Database, some_holds, combined, outcome}
use stow.Filtering.Steps.{and_then, both}
use stow.Filtering.Requests.{
  refused_if, selected, request_selects, end_meaning, range_meaning, ranges_meaning,
  request_meaning,
}
use stow.Filtering.Clauses.{build_filter_plan-selected}
use stow.Filtering.Plan.{combination_or_and, build_sort, build_filter_plan}

-- The database compares a date with the dates of the parameters as the integers that they stand
-- for.
pub record IsOrdered (db : Database) : Type 0 where
  pub at_least_iff : (v w : ℤ) → db.holds at_least (whole v) (whole w) ≡ leb_ℤ w v
  pub at_most_iff : (v w : ℤ) → db.holds at_most (whole v) (whole w) ≡ leb_ℤ v w

-- Some part of the meaning holds, where nothing was refused.
abbrev SomeHolds : Result (List Bool) → Type 0
SomeHolds (err e) = Unit {0}
SomeHolds (ok ms) = some_holds ms ≡ true

some_holds-append : (ms ns : List Bool) → some_holds ms ≡ true → some_holds (ms ++ ns) ≡ true
some_holds-append [] ns given = absurd cc
some_holds-append (true ∷ ms) ns given = refl
some_holds-append (false ∷ ms) ns given = some_holds-append ms ns given

both-SomeHolds : (x y : Result (List Bool)) → SomeHolds x → SomeHolds (both x y)
both-SomeHolds (err e) y given = tt
both-SomeHolds (ok ms) (err e) given = tt
both-SomeHolds (ok ms) (ok ns) given = some_holds-append ms ns given

combined-some : (ms : List Bool) → some_holds ms ≡ true → combined disjunction ms ≡ true
combined-some [] given = absurd cc
combined-some (m ∷ ms) given = given

-- A value is above the lower end or below the upper.
inside_or : (v l h : ℤ) → ltb_ℤ h l ≡ false → (leb_ℤ l v || (leb_ℤ v h || false)) ≡ true
inside_or v l h right = ground arith

-- What is joined by `OR`, where a part holds.
or_selects :
    (request : FilteringRequest) (meaning : Result (List Bool)) (sort : Result (Option FilterSort))
    (x : Bool)
    → request.combination ≡ some disjunction
    → SomeHolds meaning
    → ok x ≡ request_selects request meaning sort
    → x ≡ true
or_selects request (err e) sort x or_joined given selects = absurd cc
or_selects request (ok ms) (err e) x or_joined given selects = absurd cc
or_selects request (ok ms) (ok s) x or_joined given selects =
    let whole_or : combined (combination_or_and request.combination) ms ≡ true =
      rw or_joined (combined-some ms given) in
    cc

-- A range with both ends, of a date that is a date, is refused or holds by one of its ends.
module _ (db : Database) (row : ℕ → Value) (config : EntityFilterConfig) (ordered : IsOrdered db)
    (field : ℕ) (f : FilterFieldConfig) (found : get_field config field date ≡ ok f) (v : ℤ)
    (at : row f.column ≡ whole v) where
  ends_hold :
      (l h : ℤ)
      → ltb_ℤ h l ≡ false
      → some_holds (
          db.holds at_least (row f.column) (whole l)
          ∷ db.holds at_most (row f.column) (whole h)
          ∷ [])
        ≡ true
  ends_hold l h right =
      rw (at, ordered.at_least_iff v l, ordered.at_most_iff v h) (inside_or v l h right)

  both_ends :
      (o p : Option ℤ)
      → SomeHolds (
          and_then (read_given o) (λ low. and_then (read_given p) (λ high.
            refused_if (is_inverted low high) (
              ok (
                end_meaning db row config at_least f.column low
                ++ end_meaning db row config at_most f.column high)))))
  both_ends none p = tt
  both_ends (some l) none = tt
  both_ends (some l) (some h) = elim (Bool-cases (ltb_ℤ h l)) [
    | inl refused ↦ rw refused tt
    | inr right ↦ rw right (ends_hold l h right)
  ]

  range_meaning-SomeHolds :
      (r : Readers) (low high : ℕ)
      → SomeHolds (
          range_meaning db row config date r.read_date field
            (record { low = some low; high = some high }))
  range_meaning-SomeHolds r low high = rw found (both_ends (r.read_date low) (r.read_date high))

  -- A request that joins its parts by `OR`, and whose first range of dates has both its ends:
  -- where it is not refused, every row that has a date there is selected, inside the range or not,
  -- if the database compares dates as the integers that they stand for.
  pub or_range_selects_all :
      (r : Readers) (request : FilteringRequest) (low high : ℕ) (rest : List (ℕ × RangeFilter))
      (plan : FilterPlan)
      → request.combination ≡ some disjunction
      → request.date_ranges ≡ (field, record { low = some low; high = some high }) ∷ rest
      → build_filter_plan r config request ≡ ok plan
      → combined plan.combination (outcome db row plan.clauses) ≡ true
  or_range_selects_all r request low high rest plan or_joined first built =
      let sort = build_sort r config request.sort in
      let first_part : SomeHolds
          (ranges_meaning db row config date r.read_date request.date_ranges) =
        rw first (
          both-SomeHolds
            (range_meaning db row config date r.read_date field
              (record { low = some low; high = some high }))
            (ranges_meaning db row config date r.read_date rest)
            (range_meaning-SomeHolds r low high)) in
      or_selects request (request_meaning db row config r request) sort
        (combined plan.combination (outcome db row plan.clauses)) or_joined
        (both-SomeHolds (ranges_meaning db row config date r.read_date request.date_ranges) _
          first_part)
        (ap (selected db row) (sym built) ∙ build_filter_plan-selected db row config r request)

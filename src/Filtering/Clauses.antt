-- ===== src/Filtering/Clauses.antt =====
-- backend/src/common/filtering.service.ts: the clauses of a plan, and what the parts of the request
-- mean.
use stow.Prelude.{ℕ, ◌≡◌, refl, ap, Bool, true, false, Option, none, some, List, [], ◌∷◌, ◌||◌}
use stow.Prelude.Int.{ℤ}
use stow.Prelude.Result.{Result, ok, err, bad_request, Action, raise_if, then_do}
use stow.Filtering.{
  get_field, push_statuses, parse_optional, is_inverted, push_end, add_range, add_ranges,
  status_groups, push_if_any, add_statuses, lower_all, some_empty, is_none_given, add_address,
  add_addresses, parse_boolean, add_boolean, add_booleans,
}
use stow.Filtering.Texts.{Text, parts}
use stow.Filtering.Types.{
  FilterFieldType, Relation, Value, EntityFilterConfig, RangeFilter, FilteringRequest, Building,
  FilterSort, Readers, address, boolean, date, number, eq, at_least, at_most, lower_in, compares,
  whole, flag, texts,
}
use stow.Filtering.Meaning.{Database, combined}
use stow.Filtering.Named.{any_group_holds}
use stow.Filtering.Steps.{
  Says, SaysOf, push_test-SaysOf, push_statuses-SaysOf, pure-SaysOf, then-SaysOf, lift-SaysOf,
}
use stow.Filtering.Plan.{
  build_sort, build_clauses, build_filter_plan, combination_or_and, plan_of, nothing_built,
}
use stow.Filtering.Requests.{
  refused_if, selected, request_selects, end_meaning, range_meaning, ranges_meaning, known_meaning,
  address_meaning, addresses_meaning, boolean_meaning, booleans_meaning, request_meaning,
}

module _ (db : Database) (row : ℕ → Value) (config : EntityFilterConfig) where
  refused_if-SaysOf :
      (refused : Bool) (k : Action Building (Unit {0})) (x : Result (List Bool))
      → SaysOf db row k x
      → SaysOf db row
          (λ b. then_do (λ _. k) (raise_if refused bad_request b))
          (refused_if refused x)
  refused_if-SaysOf true k x says b below = refl
  refused_if-SaysOf false k x says b below = says b below

  push_end-SaysOf :
      (relation : Relation) (column : ℕ) (end : Option ℤ)
      → SaysOf db row
          (push_end relation column end)
          (ok (end_meaning db row config relation column end))
  push_end-SaysOf relation column none = pure-SaysOf db row
  push_end-SaysOf relation column (some v) = push_test-SaysOf db row relation column (whole v)

  add_range-SaysOf :
      (type : FilterFieldType) (read : ℕ → Option ℤ) (field : ℕ) (range : RangeFilter)
      → SaysOf db row
          (add_range config type read field range)
          (range_meaning db row config type read field range)
  unfolding add_range
  add_range-SaysOf type read field range =
      lift-SaysOf db row (get_field config field type) _ _ (λ f.
        lift-SaysOf db row (parse_optional read range.low) _ _ (λ low.
          lift-SaysOf db row (parse_optional read range.high) _ _ (λ high.
            refused_if-SaysOf (is_inverted low high) _ _ (
              then-SaysOf db row (push_end at_least f.column low) (push_end at_most f.column high)
                (ok (end_meaning db row config at_least f.column low))
                (ok (end_meaning db row config at_most f.column high))
                (push_end-SaysOf at_least f.column low) (push_end-SaysOf at_most f.column high)))))

  add_ranges-SaysOf :
      (type : FilterFieldType) (read : ℕ → Option ℤ) (ranges : List (ℕ × RangeFilter))
      → SaysOf db row
          (add_ranges config type read ranges)
          (ranges_meaning db row config type read ranges)
  unfolding add_ranges
  add_ranges-SaysOf type read [] = pure-SaysOf db row
  add_ranges-SaysOf type read ((field, range) ∷ rest) =
      then-SaysOf db row (add_range config type read field range) (add_ranges config type read rest)
        (range_meaning db row config type read field range)
        (ranges_meaning db row config type read rest) (add_range-SaysOf type read field range)
        (add_ranges-SaysOf type read rest)

  push_if_any-SaysOf :
      (ks : List Text) → SaysOf db row (push_if_any config ks) (known_meaning db row config ks)
  push_if_any-SaysOf [] = pure-SaysOf db row
  push_if_any-SaysOf (k ∷ ks) =
      lift-SaysOf db row (status_groups config (k ∷ ks)) push_statuses
        (λ groups. ok (any_group_holds db row groups ∷ [])) (push_statuses-SaysOf db row)

  add_address-SaysOf :
      (field : ℕ) (value : List Text)
      → SaysOf db row (add_address config field value) (address_meaning db row config field value)
  unfolding add_address
  add_address-SaysOf field value = lift-SaysOf db row (get_field config field address) _ _ (λ f.
      let given = lower_all (parts value) in
      refused_if-SaysOf (is_none_given given || some_empty given) _ _
        (push_test-SaysOf db row lower_in f.column (texts given)))

  add_addresses-SaysOf :
      (addresses : List (ℕ × List Text))
      → SaysOf db row (add_addresses config addresses) (addresses_meaning db row config addresses)
  unfolding add_addresses
  add_addresses-SaysOf [] = pure-SaysOf db row
  add_addresses-SaysOf ((field, value) ∷ rest) =
      then-SaysOf db row (add_address config field value) (add_addresses config rest)
        (address_meaning db row config field value) (addresses_meaning db row config rest)
        (add_address-SaysOf field value) (add_addresses-SaysOf rest)

  add_boolean-SaysOf :
      (field : ℕ) (value : Text)
      → SaysOf db row (add_boolean config field value) (boolean_meaning db row config field value)
  unfolding add_boolean
  add_boolean-SaysOf field value = lift-SaysOf db row (get_field config field boolean) _ _ (λ f.
      lift-SaysOf db row (parse_boolean value) _ _
        (λ v. push_test-SaysOf db row (compares eq) f.column (flag v)))

  add_booleans-SaysOf :
      (booleans : List (ℕ × Text))
      → SaysOf db row (add_booleans config booleans) (booleans_meaning db row config booleans)
  unfolding add_booleans
  add_booleans-SaysOf [] = pure-SaysOf db row
  add_booleans-SaysOf ((field, value) ∷ rest) =
      then-SaysOf db row (add_boolean config field value) (add_booleans config rest)
        (boolean_meaning db row config field value) (booleans_meaning db row config rest)
        (add_boolean-SaysOf field value) (add_booleans-SaysOf rest)

  build_clauses-SaysOf :
      (r : Readers) (request : FilteringRequest)
      → SaysOf db row (build_clauses r config request) (request_meaning db row config r request)
  unfolding build_clauses add_statuses
  build_clauses-SaysOf r request =
      then-SaysOf db row (add_ranges config date r.read_date request.date_ranges) _
        (ranges_meaning db row config date r.read_date request.date_ranges) _
        (add_ranges-SaysOf date r.read_date request.date_ranges)
        (then-SaysOf db row (push_if_any config (parts request.statuses)) _
          (known_meaning db row config (parts request.statuses)) _
          (push_if_any-SaysOf (parts request.statuses))
          (then-SaysOf db row (add_ranges config number r.read_number request.numeric_ranges) _
            (ranges_meaning db row config number r.read_number request.numeric_ranges) _
            (add_ranges-SaysOf number r.read_number request.numeric_ranges)
            (then-SaysOf db row (add_addresses config request.addresses)
              (add_booleans config request.booleans)
              (addresses_meaning db row config request.addresses)
              (booleans_meaning db row config request.booleans)
              (add_addresses-SaysOf request.addresses) (add_booleans-SaysOf request.booleans))))

  plan_of-selected :
      (r : Readers) (request : FilteringRequest) (p : Result (Unit {0}) × Building)
      (meaning : Result (List Bool)) (sort : Result (Option FilterSort))
      → Says db row p [] meaning
      → selected db row (plan_of r config request p sort) ≡ request_selects request meaning sort
  plan_of-selected r request (err e, b) (err e') sort said = ap err said
  plan_of-selected r request (err e, b) (ok ms) sort said = absurd said
  plan_of-selected r request (ok _, b) (err e) sort said = absurd said
  plan_of-selected r request (ok _, b) (ok ms) (err e) said = refl
  plan_of-selected r request (ok _, b) (ok ms) (ok sort) said =
      ap (λ bs. ok (combined (combination_or_and request.combination) bs)) said.1

  -- The plan of a request selects a row just when the parts of the request, joined by its
  -- combination, say so: each end of a range by itself, the statuses as one part that holds where
  -- all the conditions of one of them hold, each list of addresses and each Boolean. No parameter
  -- of a clause is read for another's, and the request is refused just when a part or the order of
  -- its rows is.
  pub build_filter_plan-selected :
      (r : Readers) (request : FilteringRequest)
      → selected db row (build_filter_plan r config request)
        ≡ request_selects request
            (request_meaning db row config r request)
            (build_sort r config request.sort)
  unfolding build_filter_plan
  build_filter_plan-selected r request =
      plan_of-selected r request (build_clauses r config request (nothing_built r config))
        (request_meaning db row config r request) (build_sort r config request.sort)
        (build_clauses-SaysOf r request (nothing_built r config) tt)

-- ===== src/Filtering/Requests.antt =====
-- backend/src/common/filtering.service.ts: what a request means, part by part, without clauses or
-- parameters.
use stow.Prelude.{ℕ, Bool, true, false, Option, none, some, List, [], ◌∷◌, ◌++◌, ◌||◌}
use stow.Prelude.Int.{ℤ}
use stow.Prelude.Result.{Result, ok, err, bad_request}
use stow.Filtering.{
  get_field, parse_optional, is_inverted, status_groups, lower_all, some_empty, is_none_given,
  parse_boolean,
}
use stow.Filtering.Texts.{Text, parts}
use stow.Filtering.Types.{
  FilterFieldType, Relation, Value, EntityFilterConfig, RangeFilter, FilteringRequest, FilterPlan,
  FilterSort, Readers, address, boolean, date, number, eq, at_least, at_most, lower_in, compares,
  whole, flag, texts,
}
use stow.Filtering.Meaning.{Database, combined, outcome}
use stow.Filtering.Named.{any_group_holds}
use stow.Filtering.Steps.{and_then, both}
use stow.Filtering.Plan.{combination_or_and}

abbrev pub refused_if : Bool → Result (List Bool) → Result (List Bool)
refused_if true x = err bad_request
refused_if false x = x

-- Whether the plan selects the row, or what was thrown in its place.
abbrev pub selected : Database → (ℕ → Value) → Result FilterPlan → Result Bool
selected db row (err e) = err e
selected db row (ok plan) = ok (combined plan.combination (outcome db row plan.clauses))

-- A request whose parts mean `meaning`, with an order of the rows that may be refused.
abbrev pub request_selects :
    FilteringRequest → Result (List Bool) → Result (Option FilterSort) → Result Bool
request_selects request meaning sort =
    and_then meaning
      (λ ms. and_then sort (λ _. ok (combined (combination_or_and request.combination) ms)))

module _ (db : Database) (row : ℕ → Value) (config : EntityFilterConfig) where
  abbrev pub end_meaning : Relation → ℕ → Option ℤ → List Bool
  end_meaning relation column none = []
  end_meaning relation column (some v) = db.holds relation (row column) (whole v) ∷ []

  -- A range: a test for each end that is given.
  abbrev pub range_meaning : FilterFieldType → (ℕ → Option ℤ) → ℕ → RangeFilter → Result (List Bool)
  range_meaning type read field range = and_then (get_field config field type) (λ f.
      and_then (parse_optional read range.low) (λ low.
        and_then (parse_optional read range.high) (λ high.
          refused_if (is_inverted low high)
            (ok (end_meaning at_least f.column low ++ end_meaning at_most f.column high)))))

  abbrev pub ranges_meaning :
      FilterFieldType → (ℕ → Option ℤ) → List (ℕ × RangeFilter) → Result (List Bool)
  ranges_meaning type read [] = ok []
  ranges_meaning type read ((field, range) ∷ rest) =
      both (range_meaning type read field range) (ranges_meaning type read rest)

  -- The statuses: one test, that the conditions of some status all hold.
  abbrev pub known_meaning : List Text → Result (List Bool)
  known_meaning [] = ok []
  known_meaning (k ∷ ks) =
      and_then (status_groups config (k ∷ ks)) (λ groups. ok (any_group_holds db row groups ∷ []))

  abbrev pub address_meaning : ℕ → List Text → Result (List Bool)
  address_meaning field value = and_then (get_field config field address) (λ f.
      let given = lower_all (parts value) in
      refused_if (is_none_given given || some_empty given)
        (ok (db.holds lower_in (row f.column) (texts given) ∷ [])))

  abbrev pub addresses_meaning : List (ℕ × List Text) → Result (List Bool)
  addresses_meaning [] = ok []
  addresses_meaning ((field, value) ∷ rest) =
      both (address_meaning field value) (addresses_meaning rest)

  abbrev pub boolean_meaning : ℕ → Text → Result (List Bool)
  boolean_meaning field value = and_then (get_field config field boolean) (λ f.
      and_then (parse_boolean value)
        (λ v. ok (db.holds (compares eq) (row f.column) (flag v) ∷ [])))

  abbrev pub booleans_meaning : List (ℕ × Text) → Result (List Bool)
  booleans_meaning [] = ok []
  booleans_meaning ((field, value) ∷ rest) =
      both (boolean_meaning field value) (booleans_meaning rest)

  abbrev pub request_meaning : Readers → FilteringRequest → Result (List Bool)
  request_meaning r request = both (ranges_meaning date r.read_date request.date_ranges) (
      both (known_meaning (parts request.statuses)) (
        both (ranges_meaning number r.read_number request.numeric_ranges)
          (both (addresses_meaning request.addresses) (booleans_meaning request.booleans))))

-- ===== src/Filtering/Plan.antt =====
-- backend/src/common/filtering.service.ts, the whole plan: the clauses in the order of the request's
-- parts, and the order of the rows.
use stow.Prelude.{ℕ, ◌-◌, Bool, true, Option, none, some, [], ◌∷◌, leb, ◌&&◌, if◌then◌else◌}
use stow.Prelude.Result.{Result, ok, err, bad_request, Action, ◌>>◌}
use stow.Filtering.{find_field, add_ranges, add_statuses, add_addresses, add_booleans}
use stow.Filtering.Texts.{Text, same_text}
use stow.Filtering.Types.{
  FilterCombination, SortDirection, FilterFieldConfig, EntityFilterConfig, SortRequest,
  FilteringRequest, FilterSort, FilterPlan, Building, Readers, conjunction, date, number, ascending,
  descending,
}

abbrev pub upper_code : ℕ → ℕ
upper_code c = if leb 97 c && leb c 122 then c - 32 else c

-- `text.toUpperCase()`
abbrev pub upper : Text → Text
upper [] = []
upper (c ∷ cs) = upper_code c ∷ upper cs

abbrev pub parse_direction : Text → Result SortDirection
parse_direction v =
    if same_text v (65 ∷ 83 ∷ 67 ∷ [])
    then ok ascending
    else if same_text v (68 ∷ 69 ∷ 83 ∷ 67 ∷ [])
    then ok descending
    else err bad_request

-- `(sort.direction ?? 'DESC').toUpperCase()`, which is 'ASC' or 'DESC'
abbrev pub direction_of : Option Text → Result SortDirection
direction_of none = ok descending
direction_of (some v) = parse_direction (upper v)

abbrev pub is_sortable : Option Bool → Bool
is_sortable none = true
is_sortable (some b) = b

abbrev pub sort_by : FilterFieldConfig → Result SortDirection → Result (Option FilterSort)
sort_by f (err e) = err e
sort_by f (ok d) =
    if is_sortable f.sortable
    then ok (some (record { column = f.column; direction = d }))
    else err bad_request

abbrev pub sort_found : Option FilterFieldConfig → Option Text → Result (Option FilterSort)
sort_found none direction = err bad_request
sort_found (some f) direction = sort_by f (direction_of direction)

abbrev pub combination_or_and : Option FilterCombination → FilterCombination
combination_or_and none = conjunction
combination_or_and (some x) = x

module _ (r : Readers) (config : EntityFilterConfig) where
  -- `buildSort(config, sort)`
  unfoldable pub build_sort : Option SortRequest → Result (Option FilterSort)
  build_sort none = ok none
  build_sort (some s) = sort_found (find_field s.field config.fields) s.direction

  -- The clauses, with the numbers of their parameters.
  unfoldable pub build_clauses : FilteringRequest → Action Building (Unit {0})
  unfolding add_statuses
  build_clauses request = do
    add_ranges config date r.read_date request.date_ranges
    add_statuses config request.statuses
    add_ranges config number r.read_number request.numeric_ranges
    add_addresses config request.addresses
    add_booleans config request.booleans

  abbrev pub nothing_built : Building
  nothing_built = record { clauses = []; parameter_index = 0 }

  abbrev pub plan_of :
      FilteringRequest
      → Result (Unit {0}) × Building
      → Result (Option FilterSort)
      → Result FilterPlan
  plan_of request (err e, b) sort = err e
  plan_of request (ok _, b) (err e) = err e
  plan_of request (ok _, b) (ok sort) = ok (record {
    clauses = b.clauses;
    combination = combination_or_and request.combination;
    sort = sort;
  })

  -- `buildFilterPlan(config, request)`; a combination that is none of the two is no value here.
  unfoldable pub build_filter_plan : FilteringRequest → Result FilterPlan
  unfolding build_clauses build_sort
  build_filter_plan request =
      plan_of request (build_clauses request nothing_built) (build_sort request.sort)

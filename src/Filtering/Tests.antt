-- ===== src/Filtering/Tests.antt =====
-- Filters of the creators' events, on a database that compares whole numbers and flags.
use stow.Prelude.{
  ℕ, ◌==◌, if◌then◌else◌, ◌≡◌, refl, Bool, true, false, not, Option, none, some, [], ◌∷◌,
}
use stow.Prelude.Int.{pos, leb_ℤ}
use stow.Prelude.Result.{ok}
use stow.Filtering.{
  add_ranges, add_range, add_statuses, push_statuses, push_test, add_addresses, add_booleans,
}
use stow.Filtering.Texts.{Text}
use stow.Filtering.Types.{
  Relation, Value, EntityFilterConfig, FilteringRequest, FilterCombination, FilterPlan, Readers,
  date, number, disjunction, eq, at_least, at_most, compares, whole, flag,
}
use stow.Filtering.Meaning.{Database, combined, outcome}
use stow.Filtering.Requests.{selected, request_selects, request_meaning}
use stow.Filtering.Clauses.{build_filter_plan-selected}
use stow.Filtering.Plan.{build_sort, build_clauses, build_filter_plan, nothing_built}
use stow.Filtering.Ranges.{IsOrdered, or_range_selects_all}

abbrev same_flag : Bool → Bool → Bool
same_flag true b = b
same_flag false b = not b

abbrev comparison : Relation → Value → Value → Bool
comparison at_least (whole v) (whole w) = leb_ℤ w v
comparison at_most (whole v) (whole w) = leb_ℤ v w
comparison (compares eq) (flag a) (flag b) = same_flag a b
comparison _ _ _ = false

abbrev whole_database : Database
whole_database = record { holds = comparison }

whole_database-IsOrdered : IsOrdered whole_database
whole_database-IsOrdered = record { at_least_iff = λ v w. refl; at_most_iff = λ v w. refl }

abbrev positive_readers : Readers
positive_readers = record { read_date = λ n. some (pos n); read_number = λ n. some (pos n) }

abbrev active : Text
active = 97 ∷ 99 ∷ 116 ∷ 105 ∷ 118 ∷ 101 ∷ []

-- created_at is column 0, participant_count 1, is_active 2 and is_cancelled 3.
abbrev event_config : EntityFilterConfig
event_config = record {
  fields =
      (0, record { column = 0; type = date; sortable = none })
      ∷ (1, record { column = 1; type = number; sortable = none })
      ∷ [];
  statuses =
      (
        active,
        record { field = 2; value = flag true; operator = none }
            ∷ record { field = 3; value = flag false; operator = none }
            ∷ [],
      )
      ∷ [];
}

-- An active event of day 30, with 5 participants.
abbrev event : ℕ → Value
event c = if c == 0 then whole (pos 30) else if c == 1 then whole (pos 5) else flag (c == 2)

abbrev request_with : Option FilterCombination → FilteringRequest
request_with combination = record {
  date_ranges = (0, record { low = some 10; high = some 20 }) ∷ [];
  statuses = active ∷ [];
  numeric_ranges = (1, record { low = some 3; high = none }) ∷ [];
  addresses = [];
  booleans = [];
  combination = combination;
  sort = none;
}

active_outside_range :
    selected whole_database event
      (build_filter_plan positive_readers event_config (request_with none))
    ≡ ok false
unfolding build_filter_plan build_clauses add_ranges add_range add_statuses push_statuses push_test
    add_addresses add_booleans
active_outside_range = refl

build_filter_plan-selected_example :
    selected whole_database event
      (build_filter_plan positive_readers event_config (request_with none))
    ≡ request_selects
        (request_with none)
        (request_meaning whole_database event event_config positive_readers (request_with none))
        (build_sort positive_readers event_config none)
build_filter_plan-selected_example =
    build_filter_plan-selected whole_database event event_config positive_readers
      (request_with none)

abbrev only_range : FilteringRequest
only_range = record {
  date_ranges = (0, record { low = some 10; high = some 20 }) ∷ [];
  statuses = [];
  numeric_ranges = [];
  addresses = [];
  booleans = [];
  combination = some disjunction;
  sort = none;
}

abbrev range_plan : FilterPlan
range_plan = record {
  clauses =
      (build_clauses positive_readers event_config only_range
        (nothing_built positive_readers event_config)).1.clauses;
  combination = disjunction;
  sort = none;
}

only_range-built : build_filter_plan positive_readers event_config only_range ≡ ok range_plan
unfolding build_filter_plan build_clauses add_ranges add_range add_statuses push_statuses push_test
    add_addresses add_booleans
only_range-built = refl

or_range_selects_all_example :
    combined range_plan.combination (outcome whole_database event range_plan.clauses) ≡ true
or_range_selects_all_example =
    or_range_selects_all whole_database event event_config whole_database-IsOrdered 0
      (record { column = 0; type = date; sortable = none }) refl (pos 30) refl positive_readers
      only_range 10 20 [] range_plan refl refl only_range-built

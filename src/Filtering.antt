-- ===== src/Filtering.antt =====
-- backend/src/common/filtering.service.ts: the filters of a request become the clauses of a query,
-- with numbered parameters. Columns and the names of fields are opaque, a clause is kept as what it
-- tests, and a date or a number as the integer that it stands for; texts are ASCII. The reading of
-- dates and numbers is a parameter. A name that an object inherits (`constructor`) is taken as not
-- configured, and the combination is one of the two.
pub mod Texts
pub mod Types
pub mod Meaning
pub mod Named
pub mod Steps
pub mod Requests
pub mod Clauses
pub mod Plan
pub mod Ranges
mod Tests
use stow.Prelude.{
  ℕ, suc, Bool, true, false, not, Option, none, some, List, [], ◌∷◌, ◌++◌, ◌==◌, ◌&&◌, ◌||◌,
  if◌then◌else◌,
}
use stow.Prelude.Int.{ℤ, ltb_ℤ}
use stow.Prelude.Result.{
  Result, ok, err, bad_request, Action, raise, raise_if, or_raise, lift, pure, ◌>>=◌, ◌>>◌,
}
use Texts.{Text, same_text, is_empty, trim, lower, parts}
use Types.{
  FilterCombination, FilterFieldType, SortDirection, Operator, Relation, Value, FilterFieldConfig,
  StatusFilterCondition, EntityFilterConfig, RangeFilter, SortRequest, FilteringRequest,
  ParameterTest, Sql, FilterClause, FilterSort, FilterPlan, Building, Readers, conjunction,
  disjunction, address, boolean, date, number, ascending, descending, eq, ne, is, is_not, at_least,
  at_most, lower_in, compares, null, whole, flag, text, texts, one, any_of, same_type,
}

abbrev pub find_field : ℕ → List (ℕ × FilterFieldConfig) → Option FilterFieldConfig
find_field k [] = none
find_field k ((j, f) ∷ m) = if k == j then some f else find_field k m

abbrev pub find_status :
    Text → List (Text × List StatusFilterCondition) → Option (List StatusFilterCondition)
find_status k [] = none
find_status k ((j, cs) ∷ m) = if same_text k j then some cs else find_status k m

abbrev pub of_type : FilterFieldType → Option FilterFieldConfig → Result FilterFieldConfig
of_type type none = err bad_request
of_type type (some f) = if same_type f.type type then ok f else err bad_request

-- `getField(config, field, expectedType)`
abbrev pub get_field : EntityFilterConfig → ℕ → FilterFieldType → Result FilterFieldConfig
get_field config field type = of_type type (find_field field config.fields)

-- A clause with one parameter, pushed under the next number.
unfoldable pub push_test : Relation → ℕ → Value → Action Building (Unit {0})
push_test relation column value b = (
  ok tt,
  record {
    clauses =
        b.clauses
        ++ (record {
          sql = one (record { relation = relation; column = column; name = b.parameter_index });
          parameters = (b.parameter_index, value) ∷ [];
        }
            ∷ []);
    parameter_index = suc b.parameter_index;
  },
)

abbrev pub push_end : Relation → ℕ → Option ℤ → Action Building (Unit {0})
push_end relation column none = pure tt
push_end relation column (some v) = push_test relation column (whole v)

abbrev pub read_given : Option ℤ → Result (Option ℤ)
read_given none = err bad_request
read_given (some v) = ok (some v)

-- `parseOptionalDate(value)` and `parseOptionalNumber(value)`
abbrev pub parse_optional : (ℕ → Option ℤ) → Option ℕ → Result (Option ℤ)
parse_optional read none = ok none
parse_optional read (some x) = read_given (read x)

-- The ends are given and the lower is above the upper.
abbrev pub is_inverted : Option ℤ → Option ℤ → Bool
is_inverted none high = false
is_inverted (some l) none = false
is_inverted (some l) (some h) = ltb_ℤ h l

abbrev pub operator_or_eq : Option Operator → Operator
operator_or_eq none = eq
operator_or_eq (some o) = o

abbrev pub condition_test : ℕ → StatusFilterCondition → ParameterTest
condition_test n c = record {
  relation = compares (operator_or_eq c.operator);
  column = c.field;
  name = n;
}

-- The tests of a status, its parameters, and the number after them.
abbrev pub condition_tests : ℕ → List StatusFilterCondition → List ParameterTest
condition_tests n [] = []
condition_tests n (c ∷ cs) = condition_test n c ∷ condition_tests (suc n) cs

abbrev pub condition_values : ℕ → List StatusFilterCondition → List (ℕ × Value)
condition_values n [] = []
condition_values n (c ∷ cs) = (n, c.value) ∷ condition_values (suc n) cs

abbrev pub index_after : ℕ → List StatusFilterCondition → ℕ
index_after n [] = n
index_after n (c ∷ cs) = index_after (suc n) cs

abbrev pub found_conditions :
    Option (List StatusFilterCondition) → Result (List StatusFilterCondition)
found_conditions none = err bad_request
found_conditions (some cs) = ok cs

-- The conditions of each status, or a throw.
abbrev pub add_group :
    Result (List StatusFilterCondition)
    → Result (List (List StatusFilterCondition))
    → Result (List (List StatusFilterCondition))
add_group (err e) rest = err e
add_group (ok cs) (err e) = err e
add_group (ok cs) (ok groups) = ok (cs ∷ groups)

abbrev pub group_tests : ℕ → List (List StatusFilterCondition) → List (List ParameterTest)
group_tests n [] = []
group_tests n (g ∷ gs) = condition_tests n g ∷ group_tests (index_after n g) gs

abbrev pub group_values : ℕ → List (List StatusFilterCondition) → List (ℕ × Value)
group_values n [] = []
group_values n (g ∷ gs) = condition_values n g ++ group_values (index_after n g) gs

abbrev pub index_after_all : ℕ → List (List StatusFilterCondition) → ℕ
index_after_all n [] = n
index_after_all n (g ∷ gs) = index_after_all (index_after n g) gs

-- `buildStatusClause(config, statuses, startParameterIndex)`, pushed; the index moves on by the
-- number of the conditions.
unfoldable pub push_statuses : List (List StatusFilterCondition) → Action Building (Unit {0})
push_statuses groups b = (
  ok tt,
  record {
    clauses =
        b.clauses
        ++ (record {
          sql = any_of (group_tests b.parameter_index groups);
          parameters = group_values b.parameter_index groups;
        }
            ∷ []);
    parameter_index = index_after_all b.parameter_index groups;
  },
)

abbrev pub lower_all : List Text → List Text
lower_all [] = []
lower_all (a ∷ rest) = lower (trim a) ∷ lower_all rest

abbrev pub some_empty : List Text → Bool
some_empty [] = false
some_empty (a ∷ rest) = is_empty a || some_empty rest

abbrev pub is_none_given : List Text → Bool
is_none_given [] = true
is_none_given (_ ∷ _) = false

-- `parseBoolean(value)`; the Booleans themselves are taken by their texts.
abbrev pub parse_boolean : Text → Result Bool
parse_boolean v =
    if same_text v (116 ∷ 114 ∷ 117 ∷ 101 ∷ [])
    then ok true
    else if same_text v (102 ∷ 97 ∷ 108 ∷ 115 ∷ 101 ∷ [])
    then ok false
    else err bad_request

module _ (config : EntityFilterConfig) where
  unfoldable pub add_range :
      FilterFieldType → (ℕ → Option ℤ) → ℕ → RangeFilter → Action Building (Unit {0})
  unfolding push_test
  add_range type read field range = do
    f ← lift (get_field config field type)
    low ← lift (parse_optional read range.low)
    high ← lift (parse_optional read range.high)
    raise_if (is_inverted low high) bad_request
    push_end at_least f.column low
    push_end at_most f.column high

  unfoldable pub add_ranges :
      FilterFieldType → (ℕ → Option ℤ) → List (ℕ × RangeFilter) → Action Building (Unit {0})
  add_ranges type read [] = pure tt
  add_ranges type read ((field, range) ∷ rest) = do
    add_range type read field range
    add_ranges type read rest

  abbrev pub status_groups : List Text → Result (List (List StatusFilterCondition))
  status_groups [] = ok []
  status_groups (k ∷ ks) =
      add_group (found_conditions (find_status k config.statuses)) (status_groups ks)

  abbrev pub push_if_any : List Text → Action Building (Unit {0})
  push_if_any [] = pure tt
  push_if_any (k ∷ ks) = do groups ← lift (status_groups (k ∷ ks)); push_statuses groups

  unfoldable pub add_statuses : List Text → Action Building (Unit {0})
  unfolding push_statuses
  add_statuses statuses = push_if_any (parts statuses)

  unfoldable pub add_address : ℕ → List Text → Action Building (Unit {0})
  unfolding push_test
  add_address field value = do
    f ← lift (get_field config field address)
    let given = lower_all (parts value)
    raise_if (is_none_given given || some_empty given) bad_request
    push_test lower_in f.column (texts given)

  unfoldable pub add_addresses : List (ℕ × List Text) → Action Building (Unit {0})
  add_addresses [] = pure tt
  add_addresses ((field, value) ∷ rest) = do add_address field value; add_addresses rest

  unfoldable pub add_boolean : ℕ → Text → Action Building (Unit {0})
  unfolding push_test
  add_boolean field value = do
    f ← lift (get_field config field boolean)
    v ← lift (parse_boolean value)
    push_test (compares eq) f.column (flag v)

  unfoldable pub add_booleans : List (ℕ × Text) → Action Building (Unit {0})
  add_booleans [] = pure tt
  add_booleans ((field, value) ∷ rest) = do add_boolean field value; add_booleans rest

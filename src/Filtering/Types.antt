-- ===== src/Filtering/Types.antt =====
-- The configuration of the filters, a request, and the plan that is made of it.
use stow.Prelude.{ℕ, Bool, true, false, Option, List}
use stow.Prelude.Int.{ℤ}
use stow.Filtering.Texts.{Text}

pub data FilterCombination : Type 0 where
  conjunction disjunction : FilterCombination

pub data FilterFieldType : Type 0 where
  address boolean date number : FilterFieldType

abbrev pub same_type : FilterFieldType → FilterFieldType → Bool
same_type address address = true
same_type boolean boolean = true
same_type date date = true
same_type number number = true
same_type _ _ = false

pub data SortDirection : Type 0 where
  ascending descending : SortDirection

pub data Operator : Type 0 where
  eq ne is is_not : Operator

-- What a clause tests of a column: `>=`, `<=`, `LOWER(...) IN (...)`, or an operator.
pub data Relation : Type 0 where
  at_least at_most lower_in : Relation
  compares : Operator → Relation

pub data Value : Type 0 where
  null : Value
  whole : ℤ → Value
  flag : Bool → Value
  text : Text → Value
  texts : List Text → Value

pub record FilterFieldConfig : Type 0 where
  pub column : ℕ
  pub type : FilterFieldType
  pub sortable : Option Bool

pub record StatusFilterCondition : Type 0 where
  pub field : ℕ
  pub value : Value
  pub operator : Option Operator

pub record EntityFilterConfig : Type 0 where
  pub fields : List (ℕ × FilterFieldConfig)
  pub statuses : List (Text × List StatusFilterCondition)

-- The two ends of a range, as they were sent.
pub record RangeFilter : Type 0 where
  pub low : Option ℕ
  pub high : Option ℕ

pub record SortRequest : Type 0 where
  pub field : ℕ
  pub direction : Option Text

pub record FilteringRequest : Type 0 where
  pub date_ranges : List (ℕ × RangeFilter)
  pub statuses : List Text
  pub numeric_ranges : List (ℕ × RangeFilter)
  pub addresses : List (ℕ × List Text)
  pub booleans : List (ℕ × Text)
  pub combination : Option FilterCombination
  pub sort : Option SortRequest

-- A test of a column against the parameter of a number.
pub record ParameterTest : Type 0 where
  pub relation : Relation
  pub column : ℕ
  pub name : ℕ

-- One test, or a disjunction of conjunctions.
pub data Sql : Type 0 where
  one : ParameterTest → Sql
  any_of : List (List ParameterTest) → Sql

pub record FilterClause : Type 0 where
  pub sql : Sql
  pub parameters : List (ℕ × Value)

pub record FilterSort : Type 0 where
  pub column : ℕ
  pub direction : SortDirection

pub record FilterPlan : Type 0 where
  pub clauses : List FilterClause
  pub combination : FilterCombination
  pub sort : Option FilterSort

-- The clauses so far, and the number of the next parameter.
pub record Building : Type 0 where
  pub clauses : List FilterClause
  pub parameter_index : ℕ

-- `new Date(value)` and `Number(value)`, where they give a date and a finite number.
pub record Readers : Type 0 where
  pub read_date : ℕ → Option ℤ
  pub read_number : ℕ → Option ℤ

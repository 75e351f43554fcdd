-- ===== src/Alerting/Condition.antt =====
-- alerting/internal/evaluator/condition.go. A float64 is an abstract type with its order; a cell of
-- a JSON result row is a number or something else.
use cairnobs.Base.{ℕ, Bool, false, not, List, [], ◌∷◌, Option, none, some, is_nil, length}
use cairnobs.Base.Results.{Result, ok, err}

-- The comparisons of float64, NaN included: nothing is assumed of them.
pub record Floats : Type 1 where
  pub Float : Type 0
  pub lt : Float → Float → Bool
  pub le : Float → Float → Bool
  pub eq : Float → Float → Bool

pub data ConditionType : Type 0 where
  threshold absence other_condition : ConditionType

-- `other_comparator` stands for every other string.
pub data Comparator : Type 0 where
  gt gte lt lte eq ne other_comparator : Comparator

module _ (F : Floats) where
  pub data Cell : Type 0 where
    number : F.Float → Cell
    other : Cell

  -- The fields of a rule that the evaluation reads.
  pub record Rule : Type 0 where
    pub condition_type : ConditionType
    pub comparator : Option Comparator
    pub threshold_value : Option F.Float
    pub for_minutes : ℕ
    pub renotify_interval_minutes : Option ℕ

pub data ConditionError : Type 0 where
  row_count : ℕ → ConditionError
  no_columns not_numeric incomplete_rule unknown_condition_type : ConditionError

module _ (F : Floats) where
  unfoldable pub compare : F.Float → Comparator → F.Float → Bool
  compare v gt t = F.lt t v
  compare v gte t = F.le t v
  compare v lt t = F.lt v t
  compare v lte t = F.le v t
  compare v eq t = F.eq v t
  compare v ne t = not (F.eq v t)
  compare v other_comparator t = false

  unfoldable pub to_float64 : Cell F → Option F.Float
  to_float64 (number x) = some x
  to_float64 other = none

  -- The condition and the value that was compared, if any.
  abbrev pub Evaluated : Type 0
  Evaluated = Bool × Option F.Float

  unfoldable pub compare_with :
      F.Float → Option Comparator → Option F.Float → Result ConditionError Evaluated
  compare_with v (some c) (some t) = ok (compare v c t, some v)
  compare_with v (some c) none = err incomplete_rule
  compare_with v none t = err incomplete_rule

  unfoldable pub threshold_cell : Rule F → Option F.Float → Result ConditionError Evaluated
  unfolding compare_with
  threshold_cell rule none = err not_numeric
  threshold_cell rule (some v) = compare_with v rule.comparator rule.threshold_value

  unfoldable pub threshold_row : Rule F → List (Cell F) → Result ConditionError Evaluated
  unfolding threshold_cell to_float64
  threshold_row rule [] = err no_columns
  threshold_row rule (c ∷ cs) = threshold_cell rule (to_float64 c)

  unfoldable pub threshold_rows : Rule F → List (List (Cell F)) → Result ConditionError Evaluated
  unfolding threshold_row
  threshold_rows rule (row ∷ []) = threshold_row rule row
  threshold_rows rule rows = err (row_count (length rows))

  unfoldable pub condition_of :
      ConditionType → Rule F → List (List (Cell F)) → Result ConditionError Evaluated
  unfolding threshold_rows
  condition_of absence rule rows = ok (is_nil rows, none)
  condition_of threshold rule rows = threshold_rows rule rows
  condition_of other_condition rule rows = err unknown_condition_type

  unfoldable pub evaluate_condition :
      Rule F → List (List (Cell F)) → Result ConditionError Evaluated
  unfolding condition_of
  evaluate_condition rule rows = condition_of rule.condition_type rule rows

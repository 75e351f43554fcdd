-- ===== src/Alerting/Failures.antt =====
-- Evaluations of evaluator.go whose query, or whose answer, does not decide the condition.
use cairnobs.Base.{
  ◌+◌, Bool, true, false, List, [], ◌∷◌, length, Option, none, some, if◌then◌else◌, Text, ◌≡◌, refl,
  arith,
}
use cairnobs.Base.Results.{Result, ok, err}
use cairnobs.Alerting.Condition.{
  Floats, threshold, other_condition, Comparator, Rule, Cell, number, other, ConditionError,
  row_count, no_columns, not_numeric, incomplete_rule, unknown_condition_type, compare_with,
  to_float64, threshold_cell, threshold_row, threshold_rows, condition_of, evaluate_condition,
}
use cairnobs.Alerting.Evaluator.{
  EvalError, query_error, condition_error, Row, record_error, Tick, after_condition, after_query,
  evaluate_one,
}

module _ {F : Floats} (rule : Rule F) where
  -- The one row and its first cell that a threshold is compared with, and what it is compared by.
  pub record Comparable (rows : List (List (Cell F))) : Type 0 where
    pub value : F.Float
    pub others : List (Cell F)
    pub one_row : rows ≡ (number value ∷ others) ∷ []
    pub comparator : Comparator
    pub compares : rule.comparator ≡ some comparator
    pub limit : F.Float
    pub limited : rule.threshold_value ≡ some limit

  -- A threshold that has nothing to compare is an error.
  row-fails :
      (cells : List (Cell F))
      → ¬ Comparable (cells ∷ [])
      → (e : ConditionError) × (threshold_row F rule cells ≡ err e)
  unfolding threshold_row threshold_cell to_float64 compare_with
  row-fails [] h = (no_columns, refl)
  row-fails (other ∷ cells) h = (not_numeric, refl)
  row-fails (number v ∷ cells) h = compared rule.comparator rule.threshold_value refl refl
    where
      compared :
          (c : Option Comparator) (t : Option F.Float)
          → rule.comparator ≡ c
          → rule.threshold_value ≡ t
          → (e : ConditionError) × (compare_with F v c t ≡ err e)
      compared none t p q = (incomplete_rule, refl)
      compared (some c) none p q = (incomplete_rule, refl)
      compared (some c) (some t) p q = absurd (
          h (record {
            value = v;
            others = cells;
            one_row = refl;
            comparator = c;
            compares = p;
            limit = t;
            limited = q;
          }))

  rows-fail :
      (rows : List (List (Cell F)))
      → ¬ Comparable rows
      → (e : ConditionError) × (threshold_rows F rule rows ≡ err e)
  unfolding threshold_rows
  rows-fail [] h = (row_count 0, refl)
  rows-fail (cells ∷ []) h = row-fails cells h
  rows-fail (a ∷ b ∷ rows) h = (row_count (length (a ∷ b ∷ rows)), refl)

  condition-fails :
      (rows : List (List (Cell F)))
      → rule.condition_type ≡ threshold
      → ¬ Comparable rows
      → (e : ConditionError) × (evaluate_condition F rule rows ≡ err e)
  unfolding evaluate_condition condition_of
  condition-fails rows c h = rw c (rows-fail rows h)

  condition-unknown :
      (rows : List (List (Cell F)))
      → rule.condition_type ≡ other_condition
      → evaluate_condition F rule rows ≡ err unknown_condition_type
  unfolding evaluate_condition condition_of
  condition-unknown rows c = rw c refl

module _ {F : Floats} {Payload : Type 0} (rule : Rule F) where
  -- The answer does not decide the condition: the query failed, the type of the condition is
  -- neither threshold nor absence, or a threshold has nothing to compare.
  pub data Undecided (k : Tick F Payload) : Type 0 where
    query_failed : (e : Text) → k.answer ≡ err e → Undecided k
    unknown_type : rule.condition_type ≡ other_condition → Undecided k
    not_comparable :
        (rows : List (List (Cell F)))
        → k.answer ≡ ok rows
        → rule.condition_type ≡ threshold
        → ¬ Comparable rule rows
        → Undecided k

  -- Nothing but the record of errors differs.
  pub record SameAlert (a b : Row F Payload) : Type 0 where
    pub state : b.alert.state ≡ a.alert.state
    pub since : b.alert.condition_true_since ≡ a.alert.condition_true_since
    pub fired : b.alert.fired_at ≡ a.alert.fired_at
    pub notified : b.alert.last_notified_at ≡ a.alert.last_notified_at
    pub value : b.alert.last_value ≡ a.alert.last_value
    pub log : b.delivery_log ≡ a.delivery_log

  record_error-SameAlert :
      (commits : Bool) (e : EvalError) (row : Row F Payload)
      → SameAlert row (record_error commits e row)
  unfolding record_error
  record_error-SameAlert true e row = ground arith
  record_error-SameAlert false e row = ground arith

  counted :
      (commits : Bool) (e : EvalError) (row : Row F Payload)
      → (record_error commits e row).alert.consecutive_errors
        ≡ row.alert.consecutive_errors + (if commits then 1 else 0)
  unfolding record_error
  counted true e row = refl
  counted false e row = omega arith

  abbrev Recorded : Tick F Payload → Row F Payload → Row F Payload → Type 0
  Recorded k before after =
      SameAlert before after
      × (after.alert.consecutive_errors
          ≡ before.alert.consecutive_errors + (if k.commits then 1 else 0))

  recorded :
      (k : Tick F Payload) (e : EvalError) (row : Row F Payload)
      → Recorded k row (record_error k.commits e row)
  recorded k e row = (record_error-SameAlert k.commits e row, counted k.commits e row)

  after_condition-err :
      (k : Tick F Payload) (row : Row F Payload) (e : ConditionError)
      → Recorded k row (after_condition rule k (err e) row)
  unfolding after_condition
  after_condition-err k row e = recorded k (condition_error e) row

  unknown-Recorded :
      (k : Tick F Payload) (row : Row F Payload) (m : Result Text (List (List (Cell F))))
      → rule.condition_type ≡ other_condition
      → Recorded k row (after_query rule k m row)
  unfolding after_query
  unknown-Recorded k row (err e) c = recorded k (query_error e) row
  unknown-Recorded k row (ok rows) c =
      rw (condition-unknown rule rows c) (after_condition-err k row unknown_condition_type)

  -- An evaluation whose answer does not decide the condition - the query failed, the condition's type
  -- is unknown, or a threshold did not get exactly one row that begins with a number or lacks its
  -- comparator or its limit - is never taken for a false condition: state, timestamps, last value and
  -- delivery log stay, and where the write commits the count of consecutive errors grows by one.
  pub evaluate_one-Undecided :
      (k : Tick F Payload) (row : Row F Payload)
      → Undecided k
      → SameAlert row (evaluate_one rule k row)
        × ((evaluate_one rule k row).alert.consecutive_errors
            ≡ row.alert.consecutive_errors + (if k.commits then 1 else 0))
  unfolding evaluate_one after_query
  evaluate_one-Undecided k row (query_failed e h) = rw h (recorded k (query_error e) row)
  evaluate_one-Undecided k row (unknown_type c) = unknown-Recorded k row k.answer c
  evaluate_one-Undecided k row (not_comparable rows h c n) =
      let (e, fails) = condition-fails rule rows c n in rw (h, fails) (after_condition-err k row e)

-- ===== src/Alerting/Evaluator.antt =====
-- alerting/internal/evaluator/evaluator.go: `evaluateOne`, `buildNotifyEvent` and `recordError`, with
-- `ApplyTransition` and `RecordError` of alerting/internal/rulestore/store.go, on the row of one rule in
-- `alert_state` and its rows in `delivery_log`. Postgres may refuse a transaction: then nothing of it
-- is written. What looks up the notification target and renders the payload is a parameter.
use cairnobs.Base.{ℕ, ◌+◌, ◌*◌, Bool, List, [], ◌∷◌, ◌++◌, Option, none, some, if◌then◌else◌, Text}
use cairnobs.Base.Int.{ℤ}
use cairnobs.Base.Results.{Result, ok, err}
use cairnobs.Query.Planner.Compile.{to_int64}
use cairnobs.Alerting.Condition.{Floats, Cell, Rule, ConditionError, Evaluated, evaluate_condition}
use cairnobs.Alerting.Transitions.{
  State, Event, TransitionInput, TransitionResult, compute_transition,
}

-- time.Duration(n) * time.Minute
unfoldable pub minutes : ℕ → ℤ
unfolding to_int64
minutes n = to_int64 (n * 60000000000)

abbrev pub map_minutes : Option ℕ → Option ℤ
map_minutes none = none
map_minutes (some n) = some (minutes n)

pub data EvalStatus : Type 0 where
  status_ok status_error : EvalStatus

-- The error of an evaluation: of the query, or of the condition.
pub data EvalError : Type 0 where
  query_error : Text → EvalError
  condition_error : ConditionError → EvalError

module _ (F : Floats) (Payload : Type 0) where
  pub record AlertState : Type 0 where
    pub state : State
    pub condition_true_since : Option ℤ
    pub fired_at : Option ℤ
    pub last_notified_at : Option ℤ
    pub last_eval_status : EvalStatus
    pub last_error : Option EvalError
    pub last_value : Option F.Float
    pub consecutive_errors : ℕ

  pub record NotifyEvent : Type 0 where
    pub event_type : Event
    pub payload : Payload

  pub record Row : Type 0 where
    pub alert : AlertState
    pub delivery_log : List NotifyEvent

  -- One evaluation of a rule: what the query answered, the clock, the renderer, and whether the
  -- transaction commits.
  pub record Tick : Type 0 where
    pub answer : Result Text (List (List (Cell F)))
    pub now : ℤ
    pub render : Event → Option Payload
    pub commits : Bool

module _ {F : Floats} {Payload : Type 0} where
  abbrev pub outbox : Option (NotifyEvent F Payload) → List (NotifyEvent F Payload)
  outbox none = []
  outbox (some e) = e ∷ []

  -- `ApplyTransition`: the new state and the outbox row are one transaction.
  unfoldable pub apply_transition :
      Bool
      → TransitionResult
      → Option F.Float
      → Option (NotifyEvent F Payload)
      → Row F Payload
      → Row F Payload
  apply_transition commits t value notify row =
      if commits
      then record {
        alert = record {
          state = t.next_state;
          condition_true_since = t.next_condition_true_since;
          fired_at = t.next_fired_at;
          last_notified_at = t.next_last_notified_at;
          last_eval_status = status_ok;
          last_error = none;
          last_value = value;
          consecutive_errors = 0;
        };
        delivery_log = row.delivery_log ++ outbox notify;
      }
      else row

  -- `RecordError`
  unfoldable pub record_error : Bool → EvalError → Row F Payload → Row F Payload
  record_error commits e row =
      if commits
      then record row {
        alert = record (row.alert) {
          last_eval_status = status_error;
          last_error = some e;
          consecutive_errors = row.alert.consecutive_errors + 1;
        };
      }
      else row

  abbrev pub with_payload : Event → Option Payload → Option (NotifyEvent F Payload)
  with_payload e none = none
  with_payload e (some p) = some (record { event_type = e; payload = p })

  unfoldable pub build_notify_event :
      (Event → Option Payload) → Option Event → Option (NotifyEvent F Payload)
  build_notify_event render none = none
  build_notify_event render (some e) = with_payload e (render e)

  abbrev pub input_of : Rule F → AlertState F Payload → ℤ → Bool → TransitionInput
  input_of rule s now condition = record {
    current_state = s.state;
    condition_true_since = s.condition_true_since;
    fired_at = s.fired_at;
    last_notified_at = s.last_notified_at;
    for_minutes = minutes rule.for_minutes;
    renotify_interval = map_minutes rule.renotify_interval_minutes;
    now = now;
    condition_true = condition;
  }

  unfoldable pub after_condition :
      Rule F → Tick F Payload → Result ConditionError (Evaluated F) → Row F Payload → Row F Payload
  unfolding apply_transition record_error
  after_condition rule k (err e) row = record_error k.commits (condition_error e) row
  after_condition rule k (ok (condition, value)) row =
      let t = compute_transition (input_of rule row.alert k.now condition) in
      apply_transition k.commits t value (build_notify_event k.render t.notify) row

  unfoldable pub after_query :
      Rule F → Tick F Payload → Result Text (List (List (Cell F))) → Row F Payload → Row F Payload
  unfolding record_error
  after_query rule k (err e) row = record_error k.commits (query_error e) row
  after_query rule k (ok rows) row = after_condition rule k (evaluate_condition F rule rows) row

  unfoldable pub evaluate_one : Rule F → Tick F Payload → Row F Payload → Row F Payload
  unfolding after_query after_condition
  evaluate_one rule k row = after_query rule k k.answer row

  unfoldable pub evaluate_all : Rule F → List (Tick F Payload) → Row F Payload → Row F Payload
  evaluate_all rule [] row = row
  evaluate_all rule (k ∷ ks) row = evaluate_all rule ks (evaluate_one rule k row)

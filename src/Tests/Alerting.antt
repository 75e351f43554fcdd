-- ===== src/Tests/Alerting.antt =====
-- The alert evaluator on a fixed rule. Floats are whole numbers here.
use cairnobs.Alerting.Condition.{Floats, number, Rule, threshold, gt}
use cairnobs.Alerting.Debounce.{held_at, run_true, run_true-fires_iff_held}
use cairnobs.Alerting.Evaluator.{Row, Tick, status_ok, evaluate_one}
use cairnobs.Alerting.Failures.{Comparable, SameAlert, evaluate_one-Undecided, not_comparable}
use cairnobs.Alerting.Notify.{
  Logs, NotifyFits, is_firing, notifies, same, compute_transition-notify, evaluate_one-Logs,
}
use cairnobs.Alerting.Transitions.{TransitionInput, compute_transition, state_ok, Event}
use cairnobs.Base.{
  ℕ, true, ◌+◌, ◌*◌, ◌||◌, ◌==◌, [], ◌∷◌, Option, none, some, Text, codes, ◌≡◌, refl, ltb, leb,
  if◌then◌else◌,
}
use cairnobs.Base.Int.{ℤ, pos}
use cairnobs.Base.Results.{ok, err}

abbrev floats : Floats
floats = record { Float = ℕ; lt = ltb; le = leb; eq = λ a b. a == b }

-- More than 10, for two minutes.
abbrev rule : Rule floats
rule = record {
  condition_type = threshold;
  comparator = some gt;
  threshold_value = some 10;
  for_minutes = 2;
  renotify_interval_minutes = none;
}

abbrev start : Row floats Text
start = record {
  alert = record {
    state = state_ok;
    condition_true_since = none;
    fired_at = none;
    last_notified_at = none;
    last_eval_status = status_ok;
    last_error = none;
    last_value = none;
    consecutive_errors = 0;
  };
  delivery_log = [];
}

abbrev minute : ℕ → ℤ
minute n = pos (n * 60000000000)

abbrev payload : Event → Option Text
payload e = some (codes "sent")

abbrev high : ℕ → Tick floats Text
high n = record {
  answer = ok ((number 11 ∷ []) ∷ []);
  now = minute n;
  render = payload;
  commits = true;
}

abbrev broken : Tick floats Text
broken = record (high 1) { answer = err (codes "timeout") }

abbrev input : TransitionInput
input = record {
  current_state = state_ok;
  condition_true_since = none;
  fired_at = none;
  last_notified_at = none;
  for_minutes = minute 2;
  renotify_interval = none;
  now = minute 0;
  condition_true = true;
}

run_true-fires_iff_held_example :
    is_firing (run_true input (minute 1 ∷ minute 2 ∷ [])).next_state
    ≡ held_at (minute 2) (minute 0) (minute 0 ∷ minute 1 ∷ minute 2 ∷ [])
run_true-fires_iff_held_example = run_true-fires_iff_held input (minute 1 ∷ minute 2 ∷ []) refl refl

-- A query without rows leaves a threshold with nothing to compare.
abbrev no_rows : Tick floats Text
no_rows = record (high 1) { answer = ok [] }

nothing_to_compare : ¬ Comparable rule []
nothing_to_compare c = cc (c.one_row)

evaluate_one-Undecided_example :
    SameAlert rule start (evaluate_one rule no_rows start)
    × ((evaluate_one rule no_rows start).alert.consecutive_errors
        ≡ start.alert.consecutive_errors + (if no_rows.commits then 1 else 0))
evaluate_one-Undecided_example =
    evaluate_one-Undecided rule no_rows start (not_comparable [] refl refl nothing_to_compare)

evaluate_one-Logs_example : Logs rule start (evaluate_one rule (high 0) start)
evaluate_one-Logs_example = evaluate_one-Logs rule (high 0) start

compute_transition-notify_example :
    NotifyFits input.current_state
      (compute_transition input).next_state
      (compute_transition input).notify
    × ((same (is_firing input.current_state) (is_firing (compute_transition input).next_state)
          || notifies (compute_transition input).notify)
        ≡ true)
compute_transition-notify_example = compute_transition-notify input

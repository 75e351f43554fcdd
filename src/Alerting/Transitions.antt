-- ===== src/Alerting/Transitions.antt =====
-- alerting/internal/evaluator/transitions.go. Times and durations are nanoseconds, as integers; `Sub`
-- is their difference.
use cairnobs.Base.{Bool, false, Option, none, some, if◌then◌else◌}
use cairnobs.Base.Int.{ℤ, pos, ◌-ℤ◌, leb_ℤ}

pub data State : Type 0 where
  state_ok pending firing : State

pub data Event : Type 0 where
  firing_event resolved_event : Event

pub record TransitionInput : Type 0 where
  pub current_state : State
  pub condition_true_since : Option ℤ
  pub fired_at : Option ℤ
  pub last_notified_at : Option ℤ
  pub for_minutes : ℤ
  pub renotify_interval : Option ℤ
  pub now : ℤ
  pub condition_true : Bool

pub record TransitionResult : Type 0 where
  pub next_state : State
  pub next_condition_true_since : Option ℤ
  pub next_fired_at : Option ℤ
  pub next_last_notified_at : Option ℤ
  pub notify : Option Event

unfoldable pub fire : ℤ → ℤ → TransitionResult
fire since now = record {
  next_state = firing;
  next_condition_true_since = some since;
  next_fired_at = some now;
  next_last_notified_at = some now;
  notify = some firing_event;
}

abbrev quiet : State → Option ℤ → TransitionResult
quiet s since = record {
  next_state = s;
  next_condition_true_since = since;
  next_fired_at = none;
  next_last_notified_at = none;
  notify = none;
}

-- `in.ConditionTrueSince`, or `in.Now` where it is nil.
abbrev pub since_of : Option ℤ → ℤ → ℤ
since_of none now = now
since_of (some t) now = t

unfoldable pub renotify_due : Option ℤ → Option ℤ → ℤ → Bool
renotify_due (some interval) (some last) now = leb_ℤ interval (now -ℤ last)
renotify_due _ _ now = false

unfoldable pub true_in : State → TransitionInput → TransitionResult
unfolding fire renotify_due
true_in pending i =
    let since = since_of i.condition_true_since i.now in
    if leb_ℤ i.for_minutes (i.now -ℤ since) then fire since i.now else quiet pending (some since)
true_in firing i =
    let due = renotify_due i.renotify_interval i.last_notified_at i.now in
    record {
      next_state = firing;
      next_condition_true_since = i.condition_true_since;
      next_fired_at = i.fired_at;
      next_last_notified_at = if due then some i.now else i.last_notified_at;
      notify = if due then some firing_event else none;
    }
true_in state_ok i =
    if leb_ℤ i.for_minutes (pos 0) then fire i.now i.now else quiet pending (some i.now)

unfoldable pub compute_condition_true : TransitionInput → TransitionResult
unfolding true_in
compute_condition_true i = true_in i.current_state i

unfoldable pub false_in : State → TransitionResult
false_in firing = record (quiet state_ok none) { notify = some resolved_event }
false_in pending = quiet state_ok none
false_in state_ok = quiet state_ok none

unfoldable pub compute_condition_false : TransitionInput → TransitionResult
unfolding false_in
compute_condition_false i = false_in i.current_state

unfoldable pub compute_transition : TransitionInput → TransitionResult
unfolding compute_condition_true compute_condition_false
compute_transition i =
    if i.condition_true then compute_condition_true i else compute_condition_false i

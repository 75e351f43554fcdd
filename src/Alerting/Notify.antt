-- ===== src/Alerting/Notify.antt =====
-- What an evaluation may enqueue.
use cairnobs.Base.{
  ◌||◌, Bool, true, false, List, ◌++◌, append-nil, Option, none, some, Text, ◌≡◌, refl, sym, arith,
}
use cairnobs.Base.Results.{Result, ok, err}
use cairnobs.Alerting.Condition.{Floats, Rule, Cell, ConditionError, Evaluated, evaluate_condition}
use cairnobs.Alerting.Evaluator.{
  NotifyEvent, Row, apply_transition, record_error, build_notify_event, with_payload, outbox,
  input_of, Tick, after_condition, after_query, evaluate_one,
}
use cairnobs.Alerting.Transitions.{
  State, state_ok, firing, Event, firing_event, resolved_event, TransitionInput, compute_transition,
}

-- The change of state that an event announces.
abbrev pub Announces : State → State → Event → Type 0
Announces before after resolved_event = (before ≡ firing) × (after ≡ state_ok)
Announces before after firing_event = after ≡ firing

abbrev pub NotifyFits : State → State → Option Event → Type 0
NotifyFits before after none = Unit
NotifyFits before after (some e) = Announces before after e

abbrev pub is_firing : State → Bool
is_firing firing = true
is_firing _ = false

abbrev pub notifies : Option Event → Bool
notifies none = false
notifies (some _) = true

abbrev pub same : Bool → Bool → Bool
same true b = b
same false true = false
same false false = true

-- A firing event is decided on only when the rule then fires, and a resolved event only when a
-- firing rule becomes ok; a rule that begins to fire, and one that stops, always notifies.
pub compute_transition-notify :
    (i : TransitionInput)
    → NotifyFits i.current_state (compute_transition i).next_state (compute_transition i).notify
      × ((same (is_firing i.current_state) (is_firing (compute_transition i).next_state)
            || notifies (compute_transition i).notify)
          ≡ true)
unfolding compute_transition
compute_transition-notify i = ground arith

module _ {F : Floats} {Payload : Type 0} (rule : Rule F) where
  abbrev event_of : Option (NotifyEvent F Payload) → Option Event
  event_of none = none
  event_of (some n) = some n.event_type

  -- The delivery log of `after` is that of `before` with at most one event, which fits the change.
  abbrev pub Logs : Row F Payload → Row F Payload → Type 0
  Logs before after =
      (e : Option (NotifyEvent F Payload)) × (after.delivery_log ≡ before.delivery_log ++ outbox e)
      × NotifyFits before.alert.state after.alert.state (event_of e)

  built_fits :
      (render : Event → Option Payload) (before after : State) (o : Option Event)
      → NotifyFits before after o
      → NotifyFits before after (event_of (build_notify_event {F = F} render o))
  unfolding build_notify_event
  built_fits render before after none h = tt
  built_fits render before after (some e) h = with_render (render e)
    where
      with_render :
          (p : Option Payload) → NotifyFits before after (event_of (with_payload {F = F} e p))
      with_render none = tt
      with_render (some p) = h

  after_condition-Logs :
      (k : Tick F Payload) (r : Result ConditionError (Evaluated F)) (commits : Bool)
      (row : Row F Payload)
      → k.commits ≡ commits
      → Logs row (after_condition rule k r row)
  unfolding after_condition apply_transition record_error
  after_condition-Logs k (err e) true row c = rw c (none, sym (append-nil row.delivery_log), tt)
  after_condition-Logs k (err e) false row c = rw c (none, sym (append-nil row.delivery_log), tt)
  after_condition-Logs k (ok (b, value)) true row c =
      let t = compute_transition (input_of rule row.alert k.now b) in
      rw c (
        build_notify_event k.render t.notify,
        refl,
        built_fits k.render row.alert.state t.next_state t.notify
            (compute_transition-notify (input_of rule row.alert k.now b)).0,
      )
  after_condition-Logs k (ok (b, value)) false row c =
      rw c (none, sym (append-nil row.delivery_log), tt)

  after_query-Logs :
      (k : Tick F Payload) (r : Result Text (List (List (Cell F)))) (commits : Bool)
      (row : Row F Payload)
      → k.commits ≡ commits
      → Logs row (after_query rule k r row)
  unfolding after_query record_error
  after_query-Logs k (err e) true row c = rw c (none, sym (append-nil row.delivery_log), tt)
  after_query-Logs k (err e) false row c = rw c (none, sym (append-nil row.delivery_log), tt)
  after_query-Logs k (ok rows) commits row c =
      after_condition-Logs k (evaluate_condition F rule rows) commits row c

  -- One evaluation adds at most one row to the delivery log and changes no other; the event added
  -- is written together with the state that it announces: firing with a firing state, resolved
  -- with a change from firing to ok.
  pub evaluate_one-Logs :
      (k : Tick F Payload) (row : Row F Payload) → Logs row (evaluate_one rule k row)
  unfolding evaluate_one
  evaluate_one-Logs k row = after_query-Logs k k.answer k.commits row refl

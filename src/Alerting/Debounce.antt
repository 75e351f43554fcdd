-- ===== src/Alerting/Debounce.antt =====
-- The state machine of transitions.go against what `for_minutes` means: a rule whose condition stays
-- true fires at the first evaluation at which it has been true for that long.
use cairnobs.Base.{
  Bool, true, false, ◌||◌, List, [], ◌∷◌, some, ◌≡◌, inl, inr, refl, arith, Bool-cases,
}
use cairnobs.Base.Int.{ℤ, pos, ◌-ℤ◌, leb_ℤ}
use cairnobs.Alerting.Invariant.{zero_span}
use cairnobs.Alerting.Notify.{is_firing}
use cairnobs.Alerting.Transitions.{
  State, state_ok, pending, firing, TransitionInput, TransitionResult, compute_transition,
}

-- What one evaluation leaves for the next.
abbrev pub next_input : TransitionInput → ℤ → Bool → TransitionInput
next_input i now condition =
    let t = compute_transition i in
    record i {
      current_state = t.next_state;
      condition_true_since = t.next_condition_true_since;
      fired_at = t.next_fired_at;
      last_notified_at = t.next_last_notified_at;
      now = now;
      condition_true = condition;
    }

-- Evaluate `i`, and then the condition true at each of the times.
unfoldable pub run_true : TransitionInput → List ℤ → TransitionResult
run_true i [] = compute_transition i
run_true i (t ∷ ts) = run_true (next_input i t true) ts

-- At one of the times the condition had been true since `start` for as long as `held`.
unfoldable pub held_at : ℤ → ℤ → List ℤ → Bool
held_at held start [] = false
held_at held start (t ∷ ts) = leb_ℤ held (t -ℤ start) || held_at held start ts

-- `i` is an evaluation of a true condition in the state `s`.
abbrev Holds : State → TransitionInput → Type 0
Holds s i = (i.current_state ≡ s) × (i.condition_true ≡ true)

stays_firing :
    (i : TransitionInput) (ts : List ℤ)
    → Holds firing i
    → is_firing (run_true i ts).next_state ≡ true
unfolding run_true compute_transition
stays_firing i [] h = ground arith
stays_firing i (t ∷ ts) h = stays_firing (next_input i t true) ts (ground arith)

pending_step :
    (i : TransitionInput) (start : ℤ)
    → Holds pending i
    → i.condition_true_since ≡ some start
    → leb_ℤ i.for_minutes (i.now -ℤ start) ≡ false
    → ((compute_transition i).next_state ≡ pending)
      × ((compute_transition i).next_condition_true_since ≡ some start)
unfolding compute_transition
pending_step i start h s e = ground arith

pending_fires :
    (i : TransitionInput) (start : ℤ)
    → Holds pending i
    → i.condition_true_since ≡ some start
    → leb_ℤ i.for_minutes (i.now -ℤ start) ≡ true
    → (compute_transition i).next_state ≡ firing
unfolding compute_transition
pending_fires i start h s e = ground arith

pending_run :
    (i : TransitionInput) (start : ℤ) (ts : List ℤ)
    → Holds pending i
    → i.condition_true_since ≡ some start
    → is_firing (run_true i ts).next_state ≡ held_at i.for_minutes start (i.now ∷ ts)
unfolding run_true held_at
pending_run i start [] h s = elim (Bool-cases (leb_ℤ i.for_minutes (i.now -ℤ start))) [
  | inl e ↦ rw e (rw (pending_fires i start h s e))
  | inr e ↦ rw e (rw ((pending_step i start h s e).0))
]
pending_run i start (t ∷ ts) h s = elim (Bool-cases (leb_ℤ i.for_minutes (i.now -ℤ start))) [
  | inl e ↦ rw e (stays_firing (next_input i t true) ts (pending_fires i start h s e, refl))
  | inr e ↦ rw e (
      let (p, since) = pending_step i start h s e in
      pending_run (next_input i t true) start ts (p, refl) since)
]

ok_step :
    (i : TransitionInput)
    → Holds state_ok i
    → leb_ℤ i.for_minutes (pos 0) ≡ false
    → ((compute_transition i).next_state ≡ pending)
      × ((compute_transition i).next_condition_true_since ≡ some i.now)
unfolding compute_transition
ok_step i h e = ground arith

ok_fires :
    (i : TransitionInput)
    → Holds state_ok i
    → leb_ℤ i.for_minutes (pos 0) ≡ true
    → (compute_transition i).next_state ≡ firing
unfolding compute_transition
ok_fires i h e = ground arith

-- From an ok rule, with the condition true at `i.now` and at every later evaluation, the rule fires
-- exactly when at one of these evaluations the time since `i.now` had reached `for_minutes`: not
-- before, and at the first one that qualifies. Gaps between evaluations do not matter.
pub run_true-fires_iff_held :
    (i : TransitionInput) (ts : List ℤ)
    → i.current_state ≡ state_ok
    → i.condition_true ≡ true
    → is_firing (run_true i ts).next_state ≡ held_at i.for_minutes i.now (i.now ∷ ts)
unfolding run_true held_at
run_true-fires_iff_held i [] ok c = elim (Bool-cases (leb_ℤ i.for_minutes (pos 0))) [
  | inl e ↦ rw (zero_span i.now, e) (rw (ok_fires i (ok, c) e))
  | inr e ↦ rw (zero_span i.now, e) (rw ((ok_step i (ok, c) e).0))
]
run_true-fires_iff_held i (t ∷ ts) ok c = elim (Bool-cases (leb_ℤ i.for_minutes (pos 0))) [
  | inl e ↦
      rw (zero_span i.now, e) (stays_firing (next_input i t true) ts (ok_fires i (ok, c) e, refl))
  | inr e ↦
      rw (zero_span i.now, e)
        (let (p, since) = ok_step i (ok, c) e in
          pending_run (next_input i t true) i.now ts (p, refl) since)
]

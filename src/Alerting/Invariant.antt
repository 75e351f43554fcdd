-- ===== src/Alerting/Invariant.antt =====
-- What holds of the alert state of a rule between two evaluations.
use cairnobs.Base.{Option, none, some, ◌≡◌, arith}
use cairnobs.Base.Int.{ℤ, pos, ◌-ℤ◌, ◌≤ℤ◌}
use cairnobs.Alerting.Condition.{Floats, Rule}
use cairnobs.Alerting.Evaluator.{minutes, Row}
use cairnobs.Alerting.Transitions.{State, state_ok, pending, firing}

-- The timestamps that each state carries; a firing rule's condition was true for the rule's whole
-- `for_minutes` before it fired.
abbrev pub Timestamps : ℤ → State → Option ℤ → Option ℤ → Option ℤ → Type 0
Timestamps held state_ok none none none = Unit
Timestamps held pending (some since) none none = Unit
Timestamps held firing (some since) (some fired) (some notified) = held ≤ℤ (fired -ℤ since)
Timestamps held _ _ _ _ = ⊥

pub zero_span : (now : ℤ) → now -ℤ now ≡ pos 0
unfolding ◌-ℤ◌
zero_span now = ground arith

module _ {F : Floats} {Payload : Type 0} (rule : Rule F) where
  abbrev pub RowTimestamps : Row F Payload → Type 0
  RowTimestamps row =
      Timestamps (minutes rule.for_minutes) row.alert.state row.alert.condition_true_since
        row.alert.fired_at row.alert.last_notified_at

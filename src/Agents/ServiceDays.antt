-- ===== src/Agents/ServiceDays.antt =====
-- The test for a change of a map is right: where it finds none, both maps give the same days to every
-- service (`changesServiceLogRetentionDays` of api/agents/handler.go).
use cairnobs.Agents.Override.{ServiceDays, days_of, same_days, changes_service_log_retention_days}
use cairnobs.Base.{
  ◌≤◌, Bool, true, false, not, List, [], ◌∷◌, Option, none, some, ◌≡◌, refl, arith, any, All,
  All-map, length, Text, text_eq, text_eq_iff, remove_if, any-remove_if, length-remove_if-any,
  Bool-cases, Option-cases, inl, inr, sym, ap, ◌∙◌, subst,
}
use cairnobs.Base.Int.{ℤ, eq_of_parts}

abbrev pub has_key : Text → ServiceDays → Bool
has_key service e = text_eq e.service service

-- A map has one entry for a key.
abbrev pub KeysUnique : List ServiceDays → Type 0
KeysUnique [] = Unit
KeysUnique (e ∷ es) = (any (has_key e.service) es ≡ false) × KeysUnique es

abbrev Covers : List ServiceDays → ServiceDays → Type 0
Covers current e = any (has_key e.service) current ≡ true

other_key :
    (a b : Text) (e : ServiceDays) → text_eq b a ≡ false → has_key b e ≡ true → has_key a e ≡ false
other_key a b e n h = subst (λ k. text_eq k a ≡ false) (sym ((text_eq_iff e.service b).0 h)) n

still_covered :
    (current : List ServiceDays) (a : Text) (es : List ServiceDays)
    → any (has_key a) es ≡ false
    → All (Covers current) es
    → All (Covers (remove_if (has_key a) current)) es
unfolding any
still_covered current a [] n h = tt
still_covered current a (e ∷ es) n h = (
  any-remove_if (has_key e.service) (has_key a) current
      (λ x k. other_key a e.service x (ground (arith, n)) k) h.0,
  still_covered current a es (ground (arith, n)) h.1,
)

-- Entries with different keys that a list covers are no more than the list has.
length-Covers :
    (es current : List ServiceDays)
    → KeysUnique es
    → All (Covers current) es
    → length es ≤ length current
length-Covers [] current u h = omega arith
length-Covers (e ∷ es) current u h = ground (
  arith,
  length-remove_if-any (has_key e.service) current h.0,
  length-Covers es (remove_if (has_key e.service) current) u.1
      (still_covered current e.service es u.0 h.1),
)

Finds : List ServiceDays → ServiceDays → Type 0
Finds current e = days_of e.service current ≡ some e.days

days_of-any :
    (service : Text) (es : List ServiceDays) (d : ℤ)
    → days_of service es ≡ some d
    → any (has_key service) es ≡ true
unfolding days_of any
days_of-any service [] d h = absurd (ground arith)
days_of-any service (e ∷ es) d h = ground (arith, days_of-any service es d, h)

days_of-none :
    (service : Text) (es : List ServiceDays)
    → days_of service es ≡ none
    → any (has_key service) es ≡ false
unfolding days_of any
days_of-none service [] h = refl
days_of-none service (e ∷ es) h = ground (arith, days_of-none service es, h)

same_days-some : (o : Option ℤ) (d : ℤ) → same_days o (some d) ≡ true → o ≡ some d
same_days-some none d h = absurd (ground arith)
same_days-some (some a) d h = ap (λ x. some x) (eq_of_parts a d (ground (arith, h)))

all-Finds :
    (current es : List ServiceDays)
    → any (λ e. not (same_days (days_of e.service current) (some e.days))) es ≡ false
    → All (Finds current) es
unfolding any Finds
all-Finds current [] h = tt
all-Finds current (e ∷ es) h = (
  same_days-some (days_of e.service current) e.days (ground (arith, h)),
  all-Finds current es (ground (arith, h)),
)

days_of-Finds :
    (current es : List ServiceDays) (service : Text) (d : ℤ)
    → All (Finds current) es
    → days_of service es ≡ some d
    → days_of service current ≡ some d
unfolding days_of Finds
days_of-Finds current [] service d h e = absurd (ground arith)
days_of-Finds current (x ∷ es) service d h e = elim (Bool-cases (text_eq x.service service)) [
  | inl b ↦
      subst (λ k. days_of k current ≡ some d) ((text_eq_iff x.service service).0 b)
        (h.0 ∙ ground (arith, b, e))
  | inr b ↦ days_of-Finds current es service d h.1 (ground (arith, b, e))
]

no_other_key :
    (current desired : List ServiceDays) (service : Text)
    → KeysUnique desired
    → length current ≡ length desired
    → All (Finds current) desired
    → days_of service desired ≡ none
    → any (has_key service) current ≡ false
unfolding Finds
no_other_key current desired service u n h e = elim (Bool-cases (any (has_key service) current)) [
  | inl k ↦ absurd (
      omega (
        arith,
        n,
        length-remove_if-any (has_key service) current k,
        length-Covers desired (remove_if (has_key service) current) u (
            still_covered current service desired (days_of-none service desired e) (
              All-map (Finds current) (Covers current) desired
                (λ x f. days_of-any x.service current x.days f) h)),
      ))
  | inr k ↦ k
]

days_of-any-false :
    (service : Text) (es : List ServiceDays)
    → any (has_key service) es ≡ false
    → days_of service es ≡ none
unfolding days_of any
days_of-any-false service [] h = refl
days_of-any-false service (e ∷ es) h = ground (arith, days_of-any-false service es, h)

pub changes_service_log_retention_days-same :
    (current desired : List ServiceDays)
    → KeysUnique desired
    → changes_service_log_retention_days current desired ≡ false
    → (service : Text) → days_of service current ≡ days_of service desired
unfolding changes_service_log_retention_days
changes_service_log_retention_days-same current desired u h service =
    elim (Option-cases (days_of service desired)) [
      | inl e ↦
          days_of-any-false service current (no_other_key current desired service u n found e)
          ∙ sym e
      | inr p ↦ days_of-Finds current desired service p.0 found p.1 ∙ sym p.1
    ]
  where
    n : length current ≡ length desired
    n = ground (arith, h)

    found : All (Finds current) desired
    found = all-Finds current desired (ground (arith, h))

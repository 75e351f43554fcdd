-- ===== src/Access/Cost.antt =====
-- The cost guard for compiled plans (api/ai/costguard/costguard.go). The reasons' wording is left out: a
-- reason is the name of its branch. The regular expression on raw SQL is `has_timestamp_filter`.
use cairnobs.Base.{
  ℕ, ◌*◌, Bool, true, false, not, ◌&&◌, ◌||◌, List, [], ◌∷◌, Option, none, some, if◌then◌else◌, ltb,
  is_nil, is_empty, Text, codes, ◌==◌, drop_while, ◌≡◌, ◌≢◌, ◌↔◌, refl, arith,
}
use cairnobs.Base.Int.{ℤ, pos, negsuc, ◌-ℤ◌, ltb_ℤ}
use cairnobs.Query.Ir.{TextPredicate, Aggregation, TimeRange, Plan, is_zero}
use cairnobs.Query.Planner.Guard.{boundary, match_string, is_pattern_space}

pub data Level : Type 0 where
  level_ok level_warn level_reject : Level

pub data Reason : Type 0 where
  no_timestamp_in_sql unbounded_aggregation unbounded_rows capped_text_search long_span : Reason

pub record Assessment : Type 0 where
  pub level : Level
  pub reasons : List Reason

-- 90 * 24 * time.Hour
abbrev pub max_reasonable_span : ℤ
max_reasonable_span = pos (90 * 24 * 3600000000000)

abbrev compares : Text → Bool
compares [] = false
compares (c ∷ _) = c == b'<' || c == b'>' || c == b'='

-- `(?i)\btimestamp\b\s*[<>=]`
unfoldable pub has_timestamp_filter : Text → Bool
unfolding match_string boundary is_pattern_space
has_timestamp_filter sql =
    match_string (λ last s. boundary last s && compares (drop_while is_pattern_space s))
      (codes "timestamp" ∷ []) none sql

unfoldable pub assess_raw_sql : Text → Assessment
assess_raw_sql sql =
    if has_timestamp_filter sql
    then record { level = level_ok; reasons = [] }
    else record { level = level_warn; reasons = no_timestamp_in_sql ∷ [] }

unfoldable pub rank : Level → ℕ
rank level_ok = 0
rank level_warn = 1
rank level_reject = 2

unfoldable pub max_level : Level → Level → Level
unfolding rank
max_level a b = if ltb (rank a) (rank b) then b else a

abbrev pub has_time_bound : Option TimeRange → Bool
has_time_bound none = false
has_time_bound (some r) = not (is_zero r.from) || not (is_zero r.to)

-- The level and the reasons of a plan with no time bound.
unfoldable pub assess_unbounded : Option Aggregation → List TextPredicate → Assessment
assess_unbounded agg text_search =
    let more = if not (is_nil text_search) then capped_text_search ∷ [] else [] in
    by_aggregation agg more
  where
    by_aggregation : Option Aggregation → List Reason → Assessment
    by_aggregation (some _) more = record {
      level = level_reject;
      reasons = unbounded_aggregation ∷ more;
    }
    by_aggregation none more = record { level = level_warn; reasons = unbounded_rows ∷ more }

unfoldable pub assess_range : Option TimeRange → Assessment
unfolding max_level
assess_range none = record { level = level_ok; reasons = [] }
assess_range (some r) =
    if not (is_zero r.from) && not (is_zero r.to) && ltb_ℤ max_reasonable_span (r.to -ℤ r.from)
    then record { level = max_level level_ok level_warn; reasons = long_span ∷ [] }
    else record { level = level_ok; reasons = [] }

unfoldable pub assess_ir : Plan → Assessment
unfolding assess_unbounded assess_range
assess_ir plan =
    if not (has_time_bound plan.time_range)
    then assess_unbounded plan.aggregation plan.text_search
    else assess_range plan.time_range

unfoldable pub assess : Plan → Assessment
unfolding assess_raw_sql assess_ir
assess plan = if not (is_empty plan.raw_sql) then assess_raw_sql plan.raw_sql else assess_ir plan

-- No time range, or one whose two ends are both Go's zero time.
abbrev pub Unbounded : Option TimeRange → Type 0
Unbounded none = Unit
Unbounded (some r) = (r.from ≡ pos 0) × (r.to ≡ pos 0)

-- A plan of the pipe syntax that aggregates over all times.
pub record CountsAllTime (plan : Plan) : Type 0 where
  pub no_sql : plan.raw_sql ≡ []
  pub unbounded : Unbounded plan.time_range
  pub aggregation : Aggregation
  pub aggregates : plan.aggregation ≡ some aggregation

is_zero-eq : (t : ℤ) → is_zero t ≡ true → t ≡ pos 0
is_zero-eq (pos n) h = ground (arith, h)
is_zero-eq (negsuc n) h = absurd (ground (arith, h))

has_time_bound-Unbounded : (r : Option TimeRange) → has_time_bound r ≡ false → Unbounded r
has_time_bound-Unbounded none h = tt
has_time_bound-Unbounded (some r) h =
    (is_zero-eq r.from (ground (arith, h)), is_zero-eq r.to (ground (arith, h)))

Unbounded-has_time_bound : (r : Option TimeRange) → Unbounded r → has_time_bound r ≡ false
Unbounded-has_time_bound none u = refl
Unbounded-has_time_bound (some r) u = rw (u.0, u.1) refl

rejected_by_aggregation :
    (agg : Option Aggregation) (ts : List TextPredicate)
    → (assess_unbounded agg ts).level ≡ level_reject
    → (a : Aggregation) × (agg ≡ some a)
unfolding assess_unbounded
rejected_by_aggregation none ts e = absurd (ground (arith, e))
rejected_by_aggregation (some a) ts e = (a, refl)

assess_range-passes : (r : Option TimeRange) → (assess_range r).level ≢ level_reject
unfolding assess_range max_level rank
assess_range-passes none e = cc
assess_range-passes (some r) e = absurd (ground (arith, e))

assess_raw_sql-passes : (sql : Text) → (assess_raw_sql sql).level ≢ level_reject
unfolding assess_raw_sql
assess_raw_sql-passes sql e = absurd (ground (arith, e))

rejected_unbounded :
    (plan : Plan) (b : Bool)
    → plan.raw_sql ≡ []
    → has_time_bound plan.time_range ≡ b
    → (assess_ir plan).level ≡ level_reject
    → CountsAllTime plan
unfolding assess_ir
rejected_unbounded plan true s b e = absurd (assess_range-passes plan.time_range (rw b at e))
rejected_unbounded plan false s b e =
    let (a, found) = rejected_by_aggregation plan.aggregation plan.text_search (rw b at e) in
    record {
      no_sql = s;
      unbounded = has_time_bound-Unbounded plan.time_range b;
      aggregation = a;
      aggregates = found;
    }

rejected :
    (plan : Plan) (sql : Text)
    → plan.raw_sql ≡ sql
    → (assess plan).level ≡ level_reject
    → CountsAllTime plan
unfolding assess is_empty
rejected plan [] s e = rejected_unbounded plan _ s refl (rw s at e)
rejected plan (c ∷ cs) s e = absurd (assess_raw_sql-passes (c ∷ cs) (rw s at e))

-- A plan is rejected exactly when it has no SQL text of its own, aggregates, and has no time range
-- or one in which both ends are the zero time; so one end is enough to be let pass. A plan of any
-- kind is at level ok exactly where the guard gives no reason.
pub assess-rejects :
    (plan : Plan)
    → (((assess plan).level ≡ level_reject) ↔ CountsAllTime plan)
      × (((assess plan).level ≡ level_ok) ↔ ((assess plan).reasons ≡ []))
assess-rejects plan =
    ((λ e. rejected plan plan.raw_sql refl e, λ c. counts c), (λ e. silent.0 e, λ e. silent.1 e))
  where
    counts : CountsAllTime plan → (assess plan).level ≡ level_reject
    counts c =
        unfold assess assess_ir assess_unbounded is_empty in
        rw (c.no_sql, Unbounded-has_time_bound plan.time_range c.unbounded, c.aggregates) refl

    silent : ((assess plan).level ≡ level_ok) ↔ ((assess plan).reasons ≡ [])
    silent = (λ e. unfold assess in ground (arith, e), λ e. unfold assess in ground (arith, e))

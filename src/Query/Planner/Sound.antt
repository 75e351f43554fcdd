-- ===== src/Query/Planner/Sound.antt =====
-- What planner.go answers on trees that the parser builds: it fails only with the errors that are
-- meant for the user, and its plans hold only what the SQL builder may write unquoted.
use cairnobs.Base.{
  ℕ, zero, suc, ◌+◌, ◌≤◌, ◌<◌, ◌^◌, true, ◌||◌, List, [], ◌∷◌, Option, none, some, length, Text,
  All, All-concat, ◌≡◌, ◌≢◌, inl, inr, arith, Option-cases, Bool-cases,
}
use cairnobs.Base.Int.{ℤ}
use cairnobs.Base.Results.{Result, ok, err, ◌>>=◌}
use cairnobs.Query.Ast.{TimeExpr, Term, comparison, time_bound, free_text, BoolExpr}
use cairnobs.Query.Ir.{FilterPredicate, AggFunc, Aggregation, SortField, Limit, Plan}
use cairnobs.Query.Lexer.Tokens.{is_name, is_comparator}
use cairnobs.Query.Parser.Stages.{is_valid_agg_func}
use cairnobs.Query.Parser.State
use cairnobs.Query.Parser.Terms.{spells, is_valid_time_unit}
use cairnobs.Query.Parser.WellFormed.{is_time_expr, IsTerm, IsBoolExpr, IsName}
use cairnobs.Query.Planner.Compile.{
  Error, syntax_error, invalid_timestamp, unknown_time_unit, no_conjunction, unit_duration,
  of_option, resolve_time_expr, set_time_bound, conj_at, compile_term, compile_terms,
  compile_bool_expr,
}

-- The errors that are meant for the user.
abbrev pub IsUserError : Error → Type 0
IsUserError (syntax_error (State.syntax _ _)) = Unit
IsUserError (syntax_error State.out_of_fuel) = ⊥
IsUserError (unknown_time_unit _) = ⊥
IsUserError no_conjunction = ⊥
IsUserError _ = Unit

pub data Outcome {A : Type 0} (Q : A → Type 0) : Result Error A → Type 0 where
  gives : {a : A} → Q a → Outcome Q (ok a)
  fails : {e : Error} → IsUserError e → Outcome Q (err e)

pub bind-Outcome :
    {A B : Type 0} {Q : A → Type 0} {R : B → Type 0} (m : Result Error A) (f : A → Result Error B)
    → Outcome Q m
    → ((a : A) → Q a → Outcome R (f a))
    → Outcome R (m >>= f)
bind-Outcome (ok a) f (gives h) g = g a h
bind-Outcome (err e) f (fails h) g = fails h

abbrev pub IsFilter : FilterPredicate → Type 0
IsFilter f = (is_name f.field ≡ true) × (is_comparator f.op ≡ true)

-- An aggregation over a named field, or a count.
abbrev pub IsAggFunc : AggFunc → Type 0
IsAggFunc f =
    (is_valid_agg_func f.func ≡ true)
    × ((spells f.func "count" || is_name f.field) ≡ true)
    × (is_name f.alias ≡ true)

abbrev pub IsAggregation : Option Aggregation → Type 0
IsAggregation none = Unit
IsAggregation (some a) = (a.funcs ≢ []) × All IsAggFunc a.funcs × All IsName a.group_by

abbrev pub IsLimit : Option Limit → Type 0
IsLimit none = Unit
IsLimit (some l) = l.n < 2 ^ 63

pub record IsPlan (plan : Plan) : Type 0 where
  pub no_raw_sql : plan.raw_sql ≡ []
  pub filters : All IsFilter plan.filters
  pub aggregation : IsAggregation plan.aggregation
  pub sort : All (λ (f : SortField). IsName f.field) plan.sort
  pub fields : All IsName plan.fields
  pub limit : IsLimit plan.limit

abbrev pub Planned : List Text × Plan → Type 0
Planned r = IsPlan r.1

abbrev pub Any : {A : Type 0} → A → Type 0
Any _ = Unit

unit_duration-Outcome :
    (u : Text)
    → is_valid_time_unit u ≡ true
    → Outcome Any (of_option (unknown_time_unit u) (unit_duration u))
unfolding is_valid_time_unit unit_duration
unit_duration-Outcome u h = elim (Option-cases (unit_duration u)) [
  | inl e ↦ absurd (ground arith)
  | inr (d, e) ↦ rw e (gives tt)
]

timestamp-Outcome : (s : Text) (o : Option ℤ) → Outcome Any (of_option (invalid_timestamp s) o)
timestamp-Outcome s none = fails tt
timestamp-Outcome s (some t) = gives tt

resolve_time_expr-Outcome :
    (parse_rfc3339 : Text → Option ℤ) (e : TimeExpr) (now : ℤ)
    → is_time_expr e ≡ true
    → Outcome Any (resolve_time_expr parse_rfc3339 e now)
unfolding resolve_time_expr
resolve_time_expr-Outcome parse_rfc3339 e now h = elim (Bool-cases e.is_relative) [
  | inl r ↦ rw r (
      bind-Outcome (of_option (unknown_time_unit e.relative_unit) (unit_duration e.relative_unit)) _
        (unit_duration-Outcome e.relative_unit (ground arith)) (λ _ _. gives tt))
  | inr r ↦ rw r (timestamp-Outcome e.absolute (parse_rfc3339 e.absolute))
]

conj_at-Outcome : (conjs : List Text) (i : ℕ) → i ≤ length conjs → Outcome Any (conj_at conjs i)
unfolding conj_at
conj_at-Outcome conjs zero h = gives tt
conj_at-Outcome [] (suc i) h = absurd (omega arith)
conj_at-Outcome (c ∷ conjs) (suc zero) h = gives tt
conj_at-Outcome (c ∷ conjs) (suc (suc i)) h = conj_at-Outcome conjs (suc i) (omega arith)

compile_term-Outcome :
    (parse_rfc3339 : Text → Option ℤ) (now : ℤ) (conj : Text) (t : Term) (parts : List Text)
    (plan : Plan)
    → IsTerm t
    → IsPlan plan
    → Outcome Planned (compile_term parse_rfc3339 now conj t parts plan)
unfolding compile_term set_time_bound
compile_term-Outcome parse_rfc3339 now conj (comparison f op v) parts plan h w =
    elim (Bool-cases (spells conj "or")) [
      | inl e ↦ rw e (fails tt)
      | inr e ↦ rw e (
          gives (record {
            no_raw_sql = w.no_raw_sql;
            filters =
                All-concat IsFilter plan.filters (record { field = f; op = op; value = v })
                  w.filters h;
            aggregation = w.aggregation;
            sort = w.sort;
            fields = w.fields;
            limit = w.limit;
          }))
    ]
compile_term-Outcome parse_rfc3339 now conj (time_bound kind e) parts plan h w =
    elim (Bool-cases (spells conj "or")) [
      | inl b ↦ rw b (fails tt)
      | inr b ↦ rw b (
          bind-Outcome (resolve_time_expr parse_rfc3339 e now) _
            (resolve_time_expr-Outcome parse_rfc3339 e now h.1)
            (λ t _. gives (record {
              no_raw_sql = w.no_raw_sql;
              filters = w.filters;
              aggregation = w.aggregation;
              sort = w.sort;
              fields = w.fields;
              limit = w.limit;
            })))
    ]
compile_term-Outcome parse_rfc3339 now conj (free_text q) parts plan h w = gives w

compile_terms-Outcome :
    (parse_rfc3339 : Text → Option ℤ) (now : ℤ) (conjs : List Text) (i : ℕ) (ts : List Term)
    (parts : List Text) (plan : Plan)
    → length ts + i ≤ suc (length conjs)
    → All IsTerm ts
    → IsPlan plan
    → Outcome Planned (compile_terms parse_rfc3339 now conjs i ts parts plan)
unfolding compile_terms
compile_terms-Outcome parse_rfc3339 now conjs i [] parts plan fits h w = gives w
compile_terms-Outcome parse_rfc3339 now conjs i (t ∷ ts) parts plan fits h w =
    bind-Outcome (conj_at conjs i) _ (conj_at-Outcome conjs i (omega arith)) λ conj _.
      bind-Outcome (compile_term parse_rfc3339 now conj t parts plan) _
        (compile_term-Outcome parse_rfc3339 now conj t parts plan h.0 w)
        λ r w'.
          compile_terms-Outcome parse_rfc3339 now conjs (suc i) ts r.0 r.1 (omega arith) h.1 w'

pub compile_bool_expr-Outcome :
    (parse_rfc3339 : Text → Option ℤ) (now : ℤ) (e : BoolExpr) (plan : Plan)
    → IsBoolExpr e
    → IsPlan plan
    → Outcome Planned (compile_bool_expr parse_rfc3339 now e plan)
unfolding compile_bool_expr
compile_bool_expr-Outcome parse_rfc3339 now e plan h w =
    compile_terms-Outcome parse_rfc3339 now e.conjs 0 e.terms [] plan (omega (arith, h.0)) h.1 w

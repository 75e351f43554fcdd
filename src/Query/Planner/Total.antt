-- ===== src/Query/Planner/Total.antt =====
-- Stages, whole queries and `Compile` of planner.go: no internal error and no panic, on any text.
use cairnobs.Base.{
  ℕ, ◌<◌, ◌^◌, Bool, true, false, not, ◌&&◌, ◌||◌, List, [], ◌∷◌, ◌++◌, map, Option, none, length,
  Text, codes, text_eq, text_eq_iff, is_empty, all, all-append, All, All-append, ◌≡◌, ◌≢◌, ◌⊎◌, inl,
  inr, refl, arith, Bool-cases,
}
use cairnobs.Base.Int.{ℤ}
use cairnobs.Query.Ast
use cairnobs.Query.Ast.{
  TimeExpr, Term, comparison, time_bound, free_text, BoolExpr, AggCall, PipeStage, where_stage,
  stats_stage, sort_stage, fields_stage, head_stage, tail_stage, Query,
}
use cairnobs.Query.Ir.{AggFunc, SortField, Plan, empty_plan}
use cairnobs.Query.Lexer.Tokens.{is_name, begins_name, continues_name}
use cairnobs.Query.Parser.Stages.{is_valid_agg_func}
use cairnobs.Query.Parser.State
use cairnobs.Query.Parser.Terms.{spells}
use cairnobs.Query.Parser.WellFormed.{IsBoolExpr, IsAggCall, IsName, IsSortField, IsStage, IsQuery}
use cairnobs.Query.Planner.Compile.{
  compile_terms, compile_bool_expr, default_agg_alias, agg_alias, compile_aggs, limit_of,
  sort_field, compile_stage, compile_stages, set_text_search, compile_query,
}
use cairnobs.Query.Planner.Guard.{statement, validate_select_only}
use cairnobs.Query.Planner.Sound.{
  Outcome, gives, fails, bind-Outcome, IsAggFunc, IsPlan, Planned, compile_bool_expr-Outcome,
}

-- The functions and default aliases of aggregations are names.
spelled-IsName : (f g : Text) → is_name g ≡ true → text_eq f g ≡ true → is_name f ≡ true
spelled-IsName f g h e = rw ((text_eq_iff f g).0 e) h

agg_func_name : (f : Text) → is_valid_agg_func f ≡ true → is_name f ≡ true
unfolding is_valid_agg_func is_name begins_name continues_name all
agg_func_name f h = ground (
  arith,
  spelled-IsName f (codes "count") refl,
  spelled-IsName f (codes "sum") refl,
  spelled-IsName f (codes "avg") refl,
  spelled-IsName f (codes "min") refl,
  spelled-IsName f (codes "max") refl,
)

start-continues_name : (c : ℕ) → begins_name c ≡ true → continues_name c ≡ true
unfolding continues_name
start-continues_name c h = ground arith

name-all : (w : Text) → (is_empty w || is_name w) ≡ true → all continues_name w ≡ true
unfolding is_name all is_empty
name-all [] g = refl
name-all (c ∷ cs) g = ground (arith, start-continues_name c)

name-append_field :
    (v w : Text)
    → is_name v ≡ true
    → (is_empty w || is_name w) ≡ true
    → is_name (v ++ (b'_' ∷ w)) ≡ true
unfolding is_name all
name-append_field [] w h g = cc
name-append_field (c ∷ cs) w h g =
    let underscore : continues_name b'_' ≡ true = (unfold continues_name in refl) in
    ground (arith, all-append continues_name cs (b'_' ∷ w), name-all w g)

default_agg_alias-IsName : (a : AggCall) → IsAggCall a → is_name (default_agg_alias a) ≡ true
unfolding default_agg_alias is_name begins_name continues_name all
default_agg_alias-IsName a h = ground (arith, agg_func_name a.func h.0)

agg_alias-IsName :
    (seen : List Text) (a : AggCall) → IsAggCall a → is_name (agg_alias seen a) ≡ true
unfolding agg_alias
agg_alias-IsName seen a h =
    let default = default_agg_alias-IsName a h in
    let named = name-append_field (default_agg_alias a) a.field default h.1 in ground arith

AggFuncs : List AggCall → List AggFunc → Type 0
AggFuncs as' fs = (length fs ≡ length as') × All IsAggFunc fs

compile_aggs-Outcome :
    (seen : List Text) (as' : List AggCall)
    → All IsAggCall as'
    → Outcome (AggFuncs as') (compile_aggs seen as')
unfolding compile_aggs AggFuncs
compile_aggs-Outcome seen [] h = gives (refl, tt)
compile_aggs-Outcome seen (a ∷ as') h =
    elim (Bool-cases (not (spells a.func "count") && is_empty a.field)) [
      | inl e ↦ rw e (fails tt)
      | inr e ↦ rw e (
          bind-Outcome (compile_aggs (agg_alias seen a ∷ seen) as') _
            (compile_aggs-Outcome (agg_alias seen a ∷ seen) as' h.1)
            λ fs w.
              gives (omega (arith, w.0), ((h.0.0, ground arith, agg_alias-IsName seen a h.0), w.1)))
    ]

funcs-ne-nil : (as' : List AggCall) (fs : List AggFunc) → as' ≢ [] → AggFuncs as' fs → fs ≢ []
unfolding AggFuncs
funcs-ne-nil [] fs ne w = absurd (ne refl)
funcs-ne-nil (a ∷ as') [] ne w = absurd (omega (arith, w.0))
funcs-ne-nil (a ∷ as') (f ∷ fs) ne w = λ e. cc

sort_fields :
    (fs : List Ast.SortField)
    → All IsSortField fs
    → All (λ (f : SortField). IsName f.field) (map sort_field fs)
sort_fields [] h = tt
sort_fields (f ∷ fs) h = (h.0, sort_fields fs h.1)

limit_of-lt : (n : ℕ) (has_n tail : Bool) → n < 2 ^ 63 → (limit_of n has_n tail).n < 2 ^ 63
limit_of-lt n true tail h = h
limit_of-lt n false tail h = omega arith

compile_stage-Outcome :
    (parse_rfc3339 : Text → Option ℤ) (now : ℤ) (s : PipeStage) (parts : List Text) (plan : Plan)
    → IsStage s
    → IsPlan plan
    → Outcome Planned (compile_stage parse_rfc3339 now s parts plan)
unfolding compile_stage
compile_stage-Outcome parse_rfc3339 now (where_stage e) parts plan h w =
    bind-Outcome (compile_bool_expr parse_rfc3339 now e plan) _
      (compile_bool_expr-Outcome parse_rfc3339 now e plan h w) λ r w'. gives w'
compile_stage-Outcome parse_rfc3339 now (stats_stage aggs by) parts plan h w =
    bind-Outcome (compile_aggs [] aggs) _ (compile_aggs-Outcome [] aggs h.1) λ fs v. gives (record {
      no_raw_sql = w.no_raw_sql;
      filters = w.filters;
      aggregation = (funcs-ne-nil aggs fs h.0 v, aggregated aggs fs v, h.2);
      sort = w.sort;
      fields = w.fields;
      limit = w.limit;
    })
  where
    aggregated : (as' : List AggCall) (fs : List AggFunc) → AggFuncs as' fs → All IsAggFunc fs
    aggregated as' fs v = unfold AggFuncs in v.1
compile_stage-Outcome parse_rfc3339 now (sort_stage fs) parts plan h w = gives (record {
  no_raw_sql = w.no_raw_sql;
  filters = w.filters;
  aggregation = w.aggregation;
  sort =
      All-append (λ (f : SortField). IsName f.field) plan.sort (map sort_field fs) w.sort
        (sort_fields fs h.1);
  fields = w.fields;
  limit = w.limit;
})
compile_stage-Outcome parse_rfc3339 now (fields_stage fs) parts plan h w = gives (record {
  no_raw_sql = w.no_raw_sql;
  filters = w.filters;
  aggregation = w.aggregation;
  sort = w.sort;
  fields = All-append IsName plan.fields fs w.fields h.1;
  limit = w.limit;
})
compile_stage-Outcome parse_rfc3339 now (head_stage n has_n) parts plan h w = gives (record {
  no_raw_sql = w.no_raw_sql;
  filters = w.filters;
  aggregation = w.aggregation;
  sort = w.sort;
  fields = w.fields;
  limit = limit_of-lt n has_n false h;
})
compile_stage-Outcome parse_rfc3339 now (tail_stage n has_n) parts plan h w = gives (record {
  no_raw_sql = w.no_raw_sql;
  filters = w.filters;
  aggregation = w.aggregation;
  sort = w.sort;
  fields = w.fields;
  limit = limit_of-lt n has_n true h;
})

compile_stages-Outcome :
    (parse_rfc3339 : Text → Option ℤ) (now : ℤ) (ss : List PipeStage) (parts : List Text)
    (plan : Plan)
    → All IsStage ss
    → IsPlan plan
    → Outcome Planned (compile_stages parse_rfc3339 now ss parts plan)
unfolding compile_stages
compile_stages-Outcome parse_rfc3339 now [] parts plan h w = gives w
compile_stages-Outcome parse_rfc3339 now (s ∷ ss) parts plan h w =
    bind-Outcome (compile_stage parse_rfc3339 now s parts plan) _
      (compile_stage-Outcome parse_rfc3339 now s parts plan h.0 w)
      λ r w'. compile_stages-Outcome parse_rfc3339 now ss r.0 r.1 h.1 w'

empty_plan-IsPlan : IsPlan empty_plan
empty_plan-IsPlan = record {
  no_raw_sql = refl;
  filters = tt;
  aggregation = tt;
  sort = tt;
  fields = tt;
  limit = tt;
}

set_text_search-IsPlan :
    (parts : List Text) (plan : Plan) → IsPlan plan → IsPlan (set_text_search parts plan)
unfolding set_text_search
set_text_search-IsPlan [] plan w = w
set_text_search-IsPlan (p ∷ ps) plan w = record {
  no_raw_sql = w.no_raw_sql;
  filters = w.filters;
  aggregation = w.aggregation;
  sort = w.sort;
  fields = w.fields;
  limit = w.limit;
}

base-Outcome :
    (parse_rfc3339 : Text → Option ℤ) (q : Query) (now : ℤ)
    → IsBoolExpr q.base ⊎ ((q.base.terms ≡ []) × (q.base.conjs ≡ []) × (q.pipes ≢ []))
    → Outcome Planned (compile_bool_expr parse_rfc3339 now q.base empty_plan)
base-Outcome parse_rfc3339 q now (inl h) =
    compile_bool_expr-Outcome parse_rfc3339 now q.base empty_plan h empty_plan-IsPlan
base-Outcome parse_rfc3339 q now (inr (t, c, _)) =
    unfold compile_bool_expr compile_terms in rw t (gives empty_plan-IsPlan)

-- A well-formed query compiles to a plan whose names are names, whose comparators, aggregations
-- and limits are known ones, or fails with an error for the user; no step panics or meets an
-- unknown unit.
pub compile_query-Outcome :
    (parse_rfc3339 : Text → Option ℤ) (q : Query) (now : ℤ)
    → IsQuery q
    → Outcome IsPlan (compile_query parse_rfc3339 q now)
unfolding compile_query
compile_query-Outcome parse_rfc3339 q now h =
    bind-Outcome (compile_bool_expr parse_rfc3339 now q.base empty_plan) _
      (base-Outcome parse_rfc3339 q now h.0)
      λ r w.
        bind-Outcome (compile_stages parse_rfc3339 now q.pipes r.0 r.1) _
          (compile_stages-Outcome parse_rfc3339 now q.pipes r.0 r.1 h.1 w)
          λ r' w'. gives (set_text_search-IsPlan r'.0 r'.1 w')

-- A plan of `Compile`: the user's own SQL, or the plan of a pipe query.
abbrev pub IsCompiled : Text → Plan → Type 0
IsCompiled query plan =
    IsPlan plan
    ⊎ ((plan ≡ record empty_plan { raw_sql = statement query })
        × (validate_select_only query ≡ none))

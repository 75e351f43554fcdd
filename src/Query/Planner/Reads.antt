-- ===== src/Query/Planner/Reads.antt =====
-- What the plan of a pipe query holds, read off the query's tree without the planner.
use cairnobs.Base.{
  List, [], ◌∷◌, ◌++◌, map, Option, none, some, Text, ◌≡◌, refl, sym, ◌∙◌, ap, append-nil, true,
  false,
}
use cairnobs.Base.Int.{ℤ}
use cairnobs.Base.Results.{Result, ok, err}
use cairnobs.Query.Ast.{
  BoolExpr, PipeStage, where_stage, stats_stage, sort_stage, fields_stage, head_stage, tail_stage,
  Query,
}
use cairnobs.Query.Ir.{FilterPredicate, SortField, Limit, Plan, empty_plan}
use cairnobs.Query.Planner.Compile.{
  Error, compile_bool_expr, compile_aggs, limit_of, sort_field, compile_stage, compile_stages,
  set_text_search, compile_query,
}
use cairnobs.Query.Planner.Additions.{
  comparisons, Adds, Yields, refuses, yields, bind-Yields, Any-Yields, AddsFilters, unchanged,
  Adds-trans, compile_bool_expr-Yields,
}

-- The comparisons of the `where` stages, in their order.
unfoldable pub where_filters : List PipeStage → List FilterPredicate
where_filters [] = []
where_filters (where_stage e ∷ ss) = comparisons e.terms ++ where_filters ss
where_filters (_ ∷ ss) = where_filters ss

unfoldable pub sort_fields : List PipeStage → List SortField
sort_fields [] = []
sort_fields (sort_stage fs ∷ ss) = map sort_field fs ++ sort_fields ss
sort_fields (_ ∷ ss) = sort_fields ss

unfoldable pub field_names : List PipeStage → List Text
field_names [] = []
field_names (fields_stage fs ∷ ss) = fs ++ field_names ss
field_names (_ ∷ ss) = field_names ss

-- The last `head` or `tail` decides, and the default where there is none.
unfoldable pub last_limit : Option Limit → List PipeStage → Option Limit
last_limit l [] = l
last_limit l (head_stage n has_n ∷ ss) = last_limit (some (limit_of n has_n false)) ss
last_limit l (tail_stage n has_n ∷ ss) = last_limit (some (limit_of n has_n true)) ss
last_limit l (_ ∷ ss) = last_limit l ss

-- Stages add what they name.
abbrev pub AddsStages : List PipeStage → Plan → List Text × Plan → Type 0
AddsStages ss before r =
    Adds (where_filters ss) (sort_fields ss) (field_names ss) (last_limit before.limit ss) before
      r.1

-- Taking the stages one by one changes nothing.
stages_cons :
    (s : PipeStage) (ss : List PipeStage)
    → (where_filters (s ∷ ss) ≡ where_filters (s ∷ []) ++ where_filters ss)
      × (sort_fields (s ∷ ss) ≡ sort_fields (s ∷ []) ++ sort_fields ss)
      × (field_names (s ∷ ss) ≡ field_names (s ∷ []) ++ field_names ss)
      × ((l : Option Limit) → last_limit l (s ∷ ss) ≡ last_limit (last_limit l (s ∷ [])) ss)
unfolding where_filters sort_fields field_names last_limit
stages_cons (where_stage e) ss = (
  ap (λ x. x ++ where_filters ss) (sym (append-nil (comparisons e.terms))),
  refl,
  refl,
  λ l. refl,
)
stages_cons (stats_stage aggs by) ss = (refl, refl, refl, λ l. refl)
stages_cons (sort_stage fs) ss =
    (refl, ap (λ x. x ++ sort_fields ss) (sym (append-nil (map sort_field fs))), refl, λ l. refl)
stages_cons (fields_stage fs) ss =
    (refl, refl, ap (λ x. x ++ field_names ss) (sym (append-nil fs)), λ l. refl)
stages_cons (head_stage n has_n) ss = (refl, refl, refl, λ l. refl)
stages_cons (tail_stage n has_n) ss = (refl, refl, refl, λ l. refl)

where_Adds :
    (e : BoolExpr) (plan : Plan) (r : List Text × Plan)
    → AddsFilters e.terms plan r
    → AddsStages (where_stage e ∷ []) plan r
unfolding where_filters sort_fields field_names last_limit
where_Adds e plan r h = record {
  raw_sql = h.raw_sql;
  filtered = h.filtered ∙ ap (λ x. plan.filters ++ x) (sym (append-nil (comparisons e.terms)));
  sorted = h.sorted;
  selected = h.selected;
  limited = h.limited;
}

compile_stage-Yields :
    (parse_rfc3339 : Text → Option ℤ) (now : ℤ) (s : PipeStage) (parts : List Text) (plan : Plan)
    → Yields (AddsStages (s ∷ []) plan) (compile_stage parse_rfc3339 now s parts plan)
unfolding compile_stage where_filters sort_fields field_names last_limit
compile_stage-Yields parse_rfc3339 now (where_stage e) parts plan =
    bind-Yields (compile_bool_expr parse_rfc3339 now e plan) _
      (compile_bool_expr-Yields parse_rfc3339 now e plan) λ r h. yields (where_Adds e plan r h)
compile_stage-Yields parse_rfc3339 now (stats_stage aggs by) parts plan =
    bind-Yields (compile_aggs [] aggs) _ (Any-Yields (compile_aggs [] aggs))
      λ funcs _. yields (unchanged plan _ refl refl refl refl refl)
compile_stage-Yields parse_rfc3339 now (sort_stage fs) parts plan = yields (record {
  raw_sql = refl;
  filtered = sym (append-nil plan.filters);
  sorted = ap (λ x. plan.sort ++ x) (sym (append-nil (map sort_field fs)));
  selected = sym (append-nil plan.fields);
  limited = refl;
})
compile_stage-Yields parse_rfc3339 now (fields_stage fs) parts plan = yields (record {
  raw_sql = refl;
  filtered = sym (append-nil plan.filters);
  sorted = sym (append-nil plan.sort);
  selected = ap (λ x. plan.fields ++ x) (sym (append-nil fs));
  limited = refl;
})
compile_stage-Yields parse_rfc3339 now (head_stage n has_n) parts plan = yields (record {
  raw_sql = refl;
  filtered = sym (append-nil plan.filters);
  sorted = sym (append-nil plan.sort);
  selected = sym (append-nil plan.fields);
  limited = refl;
})
compile_stage-Yields parse_rfc3339 now (tail_stage n has_n) parts plan = yields (record {
  raw_sql = refl;
  filtered = sym (append-nil plan.filters);
  sorted = sym (append-nil plan.sort);
  selected = sym (append-nil plan.fields);
  limited = refl;
})

no_stages : (plan : Plan) → AddsStages [] plan ([], plan)
unfolding where_filters sort_fields field_names last_limit
no_stages plan = unchanged plan plan refl refl refl refl refl

compile_stages-Yields :
    (parse_rfc3339 : Text → Option ℤ) (now : ℤ) (ss : List PipeStage) (parts : List Text)
    (plan : Plan)
    → Yields (AddsStages ss plan) (compile_stages parse_rfc3339 now ss parts plan)
unfolding compile_stages
compile_stages-Yields parse_rfc3339 now [] parts plan = yields (no_stages plan)
compile_stages-Yields parse_rfc3339 now (s ∷ ss) parts plan =
    bind-Yields (compile_stage parse_rfc3339 now s parts plan) _
      (compile_stage-Yields parse_rfc3339 now s parts plan)
      λ r first. then_rest r first _ (compile_stages-Yields parse_rfc3339 now ss r.0 r.1)
  where
    then_rest :
        (r : List Text × Plan)
        → AddsStages (s ∷ []) plan r
        → (m : Result Error (List Text × Plan)) → Yields (AddsStages ss r.1) m
        → Yields (AddsStages (s ∷ ss) plan) m
    then_rest r first (err e) refuses = refuses
    then_rest r first (ok q) (yields rest) =
        let both = Adds-trans plan r.1 q.1 first rest in
        let (filters, sort, fields, limit) = stages_cons s ss in
        yields (record {
          raw_sql = both.raw_sql;
          filtered = both.filtered ∙ ap (λ x. plan.filters ++ x) (sym filters);
          sorted = both.sorted ∙ ap (λ x. plan.sort ++ x) (sym sort);
          selected = both.selected ∙ ap (λ x. plan.fields ++ x) (sym fields);
          limited = rest.limited ∙ ap (λ l. last_limit l ss) first.limited ∙ sym (limit plan.limit);
        })

-- The plan says what the query's text says.
pub record SaysWhat (q : Query) (plan : Plan) : Type 0 where
  pub raw_sql : plan.raw_sql ≡ []
  pub filtered : plan.filters ≡ comparisons q.base.terms ++ where_filters q.pipes
  pub sorted : plan.sort ≡ sort_fields q.pipes
  pub selected : plan.fields ≡ field_names q.pipes
  pub limited : plan.limit ≡ last_limit none q.pipes

searched-SaysWhat :
    (q : Query) (parts : List Text) (plan : Plan)
    → SaysWhat q plan
    → SaysWhat q (set_text_search parts plan)
unfolding set_text_search
searched-SaysWhat q [] plan w = w
searched-SaysWhat q (p ∷ ps) plan w = record {
  raw_sql = w.raw_sql;
  filtered = w.filtered;
  sorted = w.sorted;
  selected = w.selected;
  limited = w.limited;
}

-- The plan of a query, if it has one, has exactly the comparisons of the base search and of the
-- `where` stages as filters, the fields of the `sort` and `fields` stages, each in the order of the
-- query, the limit of the last `head` or `tail` stage, or none, and no raw SQL.
pub compile_query-SaysWhat :
    (parse_rfc3339 : Text → Option ℤ) (q : Query) (now : ℤ)
    → Yields (SaysWhat q) (compile_query parse_rfc3339 q now)
unfolding compile_query
compile_query-SaysWhat parse_rfc3339 q now =
    bind-Yields (compile_bool_expr parse_rfc3339 now q.base empty_plan) _
      (compile_bool_expr-Yields parse_rfc3339 now q.base empty_plan)
      λ r base.
        bind-Yields (compile_stages parse_rfc3339 now q.pipes r.0 r.1) _
          (compile_stages-Yields parse_rfc3339 now q.pipes r.0 r.1)
          λ s stages. yields (searched-SaysWhat q s.0 s.1 (both r s base stages))
  where
    both :
        (r s : List Text × Plan)
        → AddsFilters q.base.terms empty_plan r
        → AddsStages q.pipes r.1 s
        → SaysWhat q s.1
    both r s base stages =
        let all = Adds-trans empty_plan r.1 s.1 base stages in
        record {
          raw_sql = all.raw_sql;
          filtered = all.filtered;
          sorted = all.sorted;
          selected = all.selected;
          limited = stages.limited ∙ ap (λ l. last_limit l q.pipes) base.limited;
        }

-- ===== src/Query/Planner/Accepted.antt =====
-- Which query trees the planner compiles, read off the tree.
use cairnobs.Base.{
  ℕ, zero, suc, Bool, true, false, not, ◌&&◌, ◌||◌, List, [], ◌∷◌, Option, none, some, Text, ◌≡◌,
  refl, ◌∙◌, ap, all, is_empty, get_elem?, Bool-cases, inl, inr, arith,
}
use cairnobs.Base.Int.{ℤ}
use cairnobs.Base.Results.{Result, ok, err, ◌>>=◌}
use cairnobs.Query.Ast.{
  AggCall, Term, comparison, time_bound, free_text, BoolExpr, PipeStage, where_stage, stats_stage,
  sort_stage, fields_stage, head_stage, tail_stage, Query,
}
use cairnobs.Query.Ir.{Plan, empty_plan}
use cairnobs.Query.Parser.Terms.{spells}
use cairnobs.Query.Planner.Compile.{
  Error, agg_alias, resolve_time_expr, conj_at, compile_term, compile_terms, compile_bool_expr,
  compile_aggs, compile_stage, compile_stages, compile_query,
}

abbrev pub is_ok : {A : Type 0} → Result Error A → Bool
is_ok (ok a) = true
is_ok (err e) = false

-- An `or` is refused where it stands before a comparison or a time bound, and let pass before any
-- free text; a time must resolve.
unfoldable pub accepted_term : (Text → Option ℤ) → ℤ → Text → Term → Bool
accepted_term parse_rfc3339 now conj (comparison f op v) = not (spells conj "or")
accepted_term parse_rfc3339 now conj (time_bound kind e) =
    not (spells conj "or") && is_ok (resolve_time_expr parse_rfc3339 e now)
accepted_term parse_rfc3339 now conj (free_text q) = true

-- The terms behind the first, each with the conjunction before it.
unfoldable pub accepted_rest : (Text → Option ℤ) → ℤ → List Term → List Text → Bool
accepted_rest parse_rfc3339 now [] cs = true
accepted_rest parse_rfc3339 now (t ∷ ts) [] = false
accepted_rest parse_rfc3339 now (t ∷ ts) (c ∷ cs) =
    accepted_term parse_rfc3339 now c t && accepted_rest parse_rfc3339 now ts cs

unfoldable pub accepted_terms : (Text → Option ℤ) → ℤ → List Term → List Text → Bool
accepted_terms parse_rfc3339 now [] cs = true
accepted_terms parse_rfc3339 now (t ∷ ts) cs =
    accepted_term parse_rfc3339 now [] t && accepted_rest parse_rfc3339 now ts cs

-- Every aggregation but `count` names a field.
unfoldable pub accepted_agg : AggCall → Bool
accepted_agg a = spells a.func "count" || not (is_empty a.field)

unfoldable pub accepted_stage : (Text → Option ℤ) → ℤ → PipeStage → Bool
accepted_stage parse_rfc3339 now (where_stage e) = accepted_terms parse_rfc3339 now e.terms e.conjs
accepted_stage parse_rfc3339 now (stats_stage aggs by) = all accepted_agg aggs
accepted_stage parse_rfc3339 now _ = true

unfoldable pub accepted : (Text → Option ℤ) → ℤ → Query → Bool
accepted parse_rfc3339 now q =
    accepted_terms parse_rfc3339 now q.base.terms q.base.conjs
    && all (accepted_stage parse_rfc3339 now) q.pipes

-- Where what follows succeeds or fails whatever it is given, both parts must succeed.
is_ok-bind :
    {A B : Type 0} (m : Result Error A) (f : A → Result Error B) (b c : Bool)
    → is_ok m ≡ b
    → ((a : A) → is_ok (f a) ≡ c)
    → is_ok (m >>= f) ≡ b && c
is_ok-bind (ok a) f true c e h = h a
is_ok-bind (ok a) f false c e h = absurd (ground arith)
is_ok-bind (err x) f true c e h = absurd (ground arith)
is_ok-bind (err x) f false c e h = refl

is_ok-compile_term :
    (parse_rfc3339 : Text → Option ℤ) (now : ℤ) (conj : Text) (t : Term) (parts : List Text)
    (plan : Plan)
    → is_ok (compile_term parse_rfc3339 now conj t parts plan)
      ≡ accepted_term parse_rfc3339 now conj t
unfolding compile_term accepted_term
is_ok-compile_term parse_rfc3339 now conj (comparison f op v) parts plan =
    elim (Bool-cases (spells conj "or")) [ inl e ↦ rw e refl | inr e ↦ rw e refl ]
is_ok-compile_term parse_rfc3339 now conj (time_bound kind e) parts plan =
    elim (Bool-cases (spells conj "or")) [
      | inl b ↦ rw b refl
      | inr b ↦ rw b (with_time (resolve_time_expr parse_rfc3339 e now) _)
    ]
  where
    with_time :
        (m : Result Error ℤ) (f : ℤ → List Text × Plan) → is_ok (m >>= λ t. ok (f t)) ≡ is_ok m
    with_time (ok t) f = refl
    with_time (err x) f = refl
is_ok-compile_term parse_rfc3339 now conj (free_text q) parts plan = refl

-- The conjunctions from the `i`th on.
unfoldable rest_at : ℕ → List Text → List Text
rest_at i [] = []
rest_at zero (c ∷ cs) = c ∷ cs
rest_at (suc i) (c ∷ cs) = rest_at i cs

abbrev tail : List Text → List Text
tail [] = []
tail (c ∷ cs) = cs

abbrev head : List Text → Option Text
head [] = none
head (c ∷ cs) = some c

get_elem?-rest_at :
    (i : ℕ) (cs : List Text)
    → (get_elem? cs i ≡ head (rest_at i cs)) × (rest_at (suc i) cs ≡ tail (rest_at i cs))
unfolding rest_at
get_elem?-rest_at i [] = (refl, refl)
get_elem?-rest_at zero (c ∷ []) = (refl, refl)
get_elem?-rest_at zero (c ∷ d ∷ cs) = (refl, refl)
get_elem?-rest_at (suc i) (c ∷ cs) = get_elem?-rest_at i cs

is_ok-compile_terms :
    (parse_rfc3339 : Text → Option ℤ) (now : ℤ) (conjs : List Text) (i : ℕ) (ts : List Term)
    (cs : List Text) (parts : List Text) (plan : Plan)
    → rest_at i conjs ≡ cs
    → is_ok (compile_terms parse_rfc3339 now conjs (suc i) ts parts plan)
      ≡ accepted_rest parse_rfc3339 now ts cs
unfolding compile_terms accepted_rest conj_at
is_ok-compile_terms parse_rfc3339 now conjs i [] cs parts plan e = refl
is_ok-compile_terms parse_rfc3339 now conjs i (t ∷ ts) [] parts plan e =
    rw ((get_elem?-rest_at i conjs).0 ∙ ap head e) refl
is_ok-compile_terms parse_rfc3339 now conjs i (t ∷ ts) (c ∷ cs) parts plan e =
    rw ((get_elem?-rest_at i conjs).0 ∙ ap head e) (
      is_ok-bind (compile_term parse_rfc3339 now c t parts plan) _ _ _
        (is_ok-compile_term parse_rfc3339 now c t parts plan)
        λ r.
          is_ok-compile_terms parse_rfc3339 now conjs (suc i) ts cs r.0 r.1
            ((get_elem?-rest_at i conjs).1 ∙ ap tail e))

all_at_first : (conjs : List Text) → rest_at 0 conjs ≡ conjs
unfolding rest_at
all_at_first [] = refl
all_at_first (c ∷ cs) = refl

is_ok-compile_bool_expr :
    (parse_rfc3339 : Text → Option ℤ) (now : ℤ) (e : BoolExpr) (plan : Plan)
    → is_ok (compile_bool_expr parse_rfc3339 now e plan)
      ≡ accepted_terms parse_rfc3339 now e.terms e.conjs
unfolding compile_bool_expr compile_terms accepted_terms conj_at
is_ok-compile_bool_expr parse_rfc3339 now e plan = from_first e.terms
  where
    from_first :
        (ts : List Term)
        → is_ok (compile_terms parse_rfc3339 now e.conjs 0 ts [] plan)
          ≡ accepted_terms parse_rfc3339 now ts e.conjs
    from_first [] = refl
    from_first (t ∷ ts) =
        is_ok-bind (compile_term parse_rfc3339 now [] t [] plan) _ _ _
          (is_ok-compile_term parse_rfc3339 now [] t [] plan)
          λ r.
            is_ok-compile_terms parse_rfc3339 now e.conjs 0 ts e.conjs r.0 r.1
              (all_at_first e.conjs)

and_true : (b : Bool) → b && true ≡ b
and_true true = refl
and_true false = refl

-- The guard of the loop in `compileStats`.
agg_refused :
    (a : AggCall) (b : Bool)
    → not (spells a.func "count") && is_empty a.field ≡ b
    → accepted_agg a ≡ not b
unfolding accepted_agg
agg_refused a b e = ground arith

is_ok-compile_aggs :
    (seen : List Text) (aggs : List AggCall)
    → is_ok (compile_aggs seen aggs) ≡ all accepted_agg aggs
unfolding compile_aggs accepted_agg all
is_ok-compile_aggs seen [] = refl
is_ok-compile_aggs seen (a ∷ as') =
    elim (Bool-cases (not (spells a.func "count") && is_empty a.field)) [
      | inl e ↦ rw e (rw (agg_refused a _ e) refl)
      | inr e ↦ rw e (
          rw (agg_refused a _ e) (
            is_ok-bind (compile_aggs (agg_alias seen a ∷ seen) as') _ _ true
              (is_ok-compile_aggs (agg_alias seen a ∷ seen) as') (λ fs. refl)
            ∙ and_true _))
    ]

is_ok-compile_stage :
    (parse_rfc3339 : Text → Option ℤ) (now : ℤ) (s : PipeStage) (parts : List Text) (plan : Plan)
    → is_ok (compile_stage parse_rfc3339 now s parts plan) ≡ accepted_stage parse_rfc3339 now s
unfolding compile_stage accepted_stage
is_ok-compile_stage parse_rfc3339 now (where_stage e) parts plan =
    is_ok-bind (compile_bool_expr parse_rfc3339 now e plan) _ _ true
      (is_ok-compile_bool_expr parse_rfc3339 now e plan) (λ r. refl)
    ∙ and_true _
is_ok-compile_stage parse_rfc3339 now (stats_stage aggs by) parts plan =
    is_ok-bind (compile_aggs [] aggs) _ _ true (is_ok-compile_aggs [] aggs) (λ r. refl) ∙ and_true _
is_ok-compile_stage parse_rfc3339 now (sort_stage fs) parts plan = refl
is_ok-compile_stage parse_rfc3339 now (fields_stage fs) parts plan = refl
is_ok-compile_stage parse_rfc3339 now (head_stage n has_n) parts plan = refl
is_ok-compile_stage parse_rfc3339 now (tail_stage n has_n) parts plan = refl

is_ok-compile_stages :
    (parse_rfc3339 : Text → Option ℤ) (now : ℤ) (ss : List PipeStage) (parts : List Text)
    (plan : Plan)
    → is_ok (compile_stages parse_rfc3339 now ss parts plan)
      ≡ all (accepted_stage parse_rfc3339 now) ss
unfolding compile_stages all
is_ok-compile_stages parse_rfc3339 now [] parts plan = refl
is_ok-compile_stages parse_rfc3339 now (s ∷ ss) parts plan =
    is_ok-bind (compile_stage parse_rfc3339 now s parts plan) _ _ _
      (is_ok-compile_stage parse_rfc3339 now s parts plan)
      λ r. is_ok-compile_stages parse_rfc3339 now ss r.0 r.1

-- A query tree compiles exactly when each term behind the first of an expression has a conjunction,
-- no `or` stands before a comparison or a time bound, every time resolves, and every aggregation but
-- `count` names a field. So an `or` before a free-text term compiles whatever stands before it, as
-- in `status=500 or timeout`.
pub compile_query-accepted :
    (parse_rfc3339 : Text → Option ℤ) (q : Query) (now : ℤ)
    → is_ok (compile_query parse_rfc3339 q now) ≡ accepted parse_rfc3339 now q
unfolding compile_query accepted
compile_query-accepted parse_rfc3339 q now =
    is_ok-bind (compile_bool_expr parse_rfc3339 now q.base empty_plan) _ _ _
      (is_ok-compile_bool_expr parse_rfc3339 now q.base empty_plan)
      λ r.
        is_ok-bind (compile_stages parse_rfc3339 now q.pipes r.0 r.1) _ _ true
          (is_ok-compile_stages parse_rfc3339 now q.pipes r.0 r.1) (λ s. refl)
        ∙ and_true _

-- ===== src/Query/Planner/Compile.antt =====
-- planner.go: `Compile`, `compileQuery`, `compileBoolExpr`, `applyTimeBound`, `resolveTimeExpr`,
-- `compileStats`. `time.Parse(time.RFC3339, _)` is the parameter `parse_rfc3339`.
use cairnobs.Base.{
  ℕ, zero, suc, ◌-◌, ◌*◌, ◌%◌, ◌^◌, Bool, true, false, not, ◌&&◌, ◌||◌, List, [], ◌∷◌, ◌++◌, map,
  Option, none, some, ◌==◌, ltb, if◌then◌else◌, get_elem?, Text, codes, text_eq, is_empty, has_code,
  any, join, is_nil,
}
use cairnobs.Base.Int.{ℤ, pos, negsuc, neg, ◌+ℤ◌, ltb_ℤ}
use cairnobs.Base.Results.{Result, ok, err, ◌>>=◌}
use cairnobs.Query.Ast
use cairnobs.Query.Ast.{
  TimeExpr, Term, comparison, time_bound, free_text, BoolExpr, AggCall, PipeStage, where_stage,
  stats_stage, sort_stage, fields_stage, head_stage, tail_stage, Query,
}
use cairnobs.Query.Ir.{AggFunc, SortField, Limit, TimeRange, Plan, empty_plan}
use cairnobs.Query.Parser.Stages.{parse}
use cairnobs.Query.Parser.State
use cairnobs.Query.Parser.Terms.{spells}
use cairnobs.Query.Planner.Guard.{SqlError, looks_like_sql, statement, validate_select_only}

-- The errors of `Compile`. `no_conjunction` is the panic of `expr.Conjs[i-1]` out of range, and
-- `unknown_time_unit` the "internal error" of `resolveTimeExpr`.
pub data Error : Type 0 where
  syntax_error : State.Error → Error
  sql_error : SqlError → Error
  or_on_filter : (field : Text) → Error
  or_on_time_bound : (kind : Text) → Error
  invalid_timestamp : Text → Error
  unknown_time_unit : Text → Error
  requires_field : (func : Text) → Error
  no_conjunction : Error

abbrev pub default_limit : ℕ
default_limit = 100

-- The int64 that the low 64 bits of `n` stand for.
unfoldable pub to_int64 : ℕ → ℤ
to_int64 n = let r = n % 2 ^ 64 in if ltb r (2 ^ 63) then pos r else negsuc (2 ^ 64 - r - 1)

-- `-d` on an int64, where the least one is its own negation.
unfoldable pub neg_int64 : ℤ → ℤ
neg_int64 (pos n) = neg (pos n)
neg_int64 (negsuc n) = if n == 2 ^ 63 - 1 then negsuc n else pos (suc n)

abbrev second : ℕ
second = 1000000000

-- Nanoseconds in a unit; `none` for a unit that the switch does not know.
unfoldable pub unit_duration : Text → Option ℕ
unit_duration u =
    if spells u "s"
    then some second
    else if spells u "m"
    then some (60 * second)
    else if spells u "h"
    then some (3600 * second)
    else if spells u "d"
    then some (24 * 3600 * second)
    else if spells u "w"
    then some (7 * 24 * 3600 * second)
    else none

abbrev pub of_option : {A : Type 0} → Error → Option A → Result Error A
of_option e none = err e
of_option e (some a) = ok a

-- `now.Add(d)` on the absolute time line.
unfoldable pub offset : TimeExpr → ℤ → ℕ → ℤ
unfolding to_int64 neg_int64
offset e now unit =
    let d = to_int64 (e.relative_n * unit) in
    now +ℤ (if ltb_ℤ e.relative_sign (pos 0) then neg_int64 d else d)

unfoldable pub resolve_time_expr : (Text → Option ℤ) → TimeExpr → ℤ → Result Error ℤ
unfolding unit_duration offset
resolve_time_expr parse_rfc3339 e now =
    if not e.is_relative
    then of_option (invalid_timestamp e.absolute) (parse_rfc3339 e.absolute)
    else do
      unit ← of_option (unknown_time_unit e.relative_unit) (unit_duration e.relative_unit)
      ok (offset e now unit)

abbrev pub range_of : Option TimeRange → TimeRange
range_of none = record { from = pos 0; to = pos 0 }
range_of (some r) = r

-- `applyTimeBound` behind its call of `resolveTimeExpr`.
unfoldable pub set_time_bound : Text → ℤ → Plan → Plan
set_time_bound kind t plan =
    let r = range_of plan.time_range in
    record plan {
      time_range = some (
          if spells kind "earliest"
          then record r { from = t }
          else if spells kind "latest"
          then record r { to = t }
          else r);
    }

-- strings.ReplaceAll(s, `"`, `\"`)
unfoldable pub escape_quotes : Text → Text
escape_quotes [] = []
escape_quotes (c ∷ cs) =
    let rest = escape_quotes cs in if c == b'"' then b'\\' ∷ b'"' ∷ rest else c ∷ rest

-- A free-text term with a blank in it becomes a phrase.
unfoldable pub text_part : Text → Text
unfolding escape_quotes has_code
text_part q =
    if has_code b' ' q || has_code b'\t' q then b'"' ∷ (escape_quotes q ++ b'"' ∷ []) else q

unfoldable pub add_text_part : Text → Text → List Text → List Text
unfolding text_part
add_text_part conj q parts =
    if spells conj "or"
    then parts ++ (codes "OR" ∷ text_part q ∷ [])
    else if is_nil parts
    then parts ++ text_part q ∷ []
    else parts ++ (codes "AND" ∷ text_part q ∷ [])

-- `conj := ""; if i > 0 { conj = expr.Conjs[i-1] }`
unfoldable pub conj_at : List Text → ℕ → Result Error Text
conj_at conjs zero = ok []
conj_at conjs (suc i) = of_option no_conjunction (get_elem? conjs i)

unfoldable pub compile_term :
    (Text → Option ℤ) → ℤ → Text → Term → List Text → Plan → Result Error (List Text × Plan)
compile_term parse_rfc3339 now conj (comparison f op v) parts plan =
    if spells conj "or"
    then err (or_on_filter f)
    else ok (
      parts,
      record plan { filters = plan.filters ++ (record { field = f; op = op; value = v } ∷ []) },
    )
compile_term parse_rfc3339 now conj (time_bound kind e) parts plan =
    if spells conj "or"
    then err (or_on_time_bound kind)
    else do t ← resolve_time_expr parse_rfc3339 e now; ok (parts, set_time_bound kind t plan)
compile_term parse_rfc3339 now conj (free_text q) parts plan = ok (add_text_part conj q parts, plan)

-- The loop of `compileBoolExpr`, from term `i` on.
unfoldable pub compile_terms :
    (Text → Option ℤ)
    → ℤ
    → List Text
    → ℕ
    → List Term
    → List Text
    → Plan
    → Result Error (List Text × Plan)
compile_terms parse_rfc3339 now conjs i [] parts plan = ok (parts, plan)
compile_terms parse_rfc3339 now conjs i (t ∷ ts) parts plan = do
  conj ← conj_at conjs i
  (parts', plan') ← compile_term parse_rfc3339 now conj t parts plan
  compile_terms parse_rfc3339 now conjs (suc i) ts parts' plan'

unfoldable pub compile_bool_expr :
    (Text → Option ℤ) → ℤ → BoolExpr → Plan → Result Error (List Text × Plan)
compile_bool_expr parse_rfc3339 now e plan =
    compile_terms parse_rfc3339 now e.conjs 0 e.terms [] plan

abbrev pub member : Text → List Text → Bool
member a xs = any (text_eq a) xs

-- `defaultAggAlias`
unfoldable pub default_agg_alias : AggCall → Text
default_agg_alias a = if spells a.func "count" then codes "count" else a.func

unfoldable pub agg_alias : List Text → AggCall → Text
unfolding default_agg_alias
agg_alias seen a =
    let alias = if is_empty a.alias then default_agg_alias a else a.alias in
    if member alias seen && is_empty a.alias then alias ++ (b'_' ∷ a.field) else alias

-- The loop of `compileStats`, with the aliases seen so far.
unfoldable pub compile_aggs : List Text → List AggCall → Result Error (List AggFunc)
unfolding agg_alias
compile_aggs seen [] = ok []
compile_aggs seen (a ∷ as') =
    let alias = agg_alias seen a in
    let rest = compile_aggs (alias ∷ seen) as' in
    if not (spells a.func "count") && is_empty a.field
    then err (requires_field a.func)
    else do fs ← rest; ok (record { func = a.func; field = a.field; alias = alias } ∷ fs)

abbrev pub limit_of : ℕ → Bool → Bool → Limit
limit_of n has_n tail = record { n = if has_n then n else default_limit; tail = tail }

abbrev pub sort_field : Ast.SortField → SortField
sort_field f = record { field = f.field; desc = f.desc }

unfoldable pub compile_stage :
    (Text → Option ℤ) → ℤ → PipeStage → List Text → Plan → Result Error (List Text × Plan)
compile_stage parse_rfc3339 now (where_stage e) parts plan = do
  (more, plan') ← compile_bool_expr parse_rfc3339 now e plan
  ok (parts ++ more, plan')
compile_stage parse_rfc3339 now (stats_stage aggs by) parts plan = do
  funcs ← compile_aggs [] aggs
  ok (parts, record plan { aggregation = some (record { funcs = funcs; group_by = by }) })
compile_stage parse_rfc3339 now (sort_stage fs) parts plan =
    ok (parts, record plan { sort = plan.sort ++ map sort_field fs })
compile_stage parse_rfc3339 now (fields_stage fs) parts plan =
    ok (parts, record plan { fields = plan.fields ++ fs })
compile_stage parse_rfc3339 now (head_stage n has_n) parts plan =
    ok (parts, record plan { limit = some (limit_of n has_n false) })
compile_stage parse_rfc3339 now (tail_stage n has_n) parts plan =
    ok (parts, record plan { limit = some (limit_of n has_n true) })

unfoldable pub compile_stages :
    (Text → Option ℤ) → ℤ → List PipeStage → List Text → Plan → Result Error (List Text × Plan)
compile_stages parse_rfc3339 now [] parts plan = ok (parts, plan)
compile_stages parse_rfc3339 now (s ∷ ss) parts plan = do
  (parts', plan') ← compile_stage parse_rfc3339 now s parts plan
  compile_stages parse_rfc3339 now ss parts' plan'

-- `strings.Join(textParts, " ")`, if there is any part.
unfoldable pub set_text_search : List Text → Plan → Plan
set_text_search [] plan = plan
set_text_search (p ∷ ps) plan = record plan {
  text_search = record { query = join (codes " ") (p ∷ ps) } ∷ [];
}

unfoldable pub compile_query : (Text → Option ℤ) → Query → ℤ → Result Error Plan
compile_query parse_rfc3339 q now = do
  (parts, plan) ← compile_bool_expr parse_rfc3339 now q.base empty_plan
  (parts', plan') ← compile_stages parse_rfc3339 now q.pipes parts plan
  ok (set_text_search parts' plan')

abbrev pub of_parse : State.Result Query → Result Error Query
of_parse (State.ok q) = ok q
of_parse (State.err e) = err (syntax_error e)

abbrev pub of_guard : Option SqlError → Result Error (Unit {0})
of_guard none = ok tt
of_guard (some e) = err (sql_error e)

unfoldable pub is_sql : Text → Text → Bool
is_sql query language = if is_empty language then looks_like_sql query else spells language "sql"

unfoldable pub compile : (Text → Option ℤ) → Text → Text → ℤ → Result Error Plan
compile parse_rfc3339 query language now =
    if is_sql query language
    then (do
      _ ← of_guard (validate_select_only query)
      ok (record empty_plan { raw_sql = statement query }))
    else (do q ← of_parse (parse query); compile_query parse_rfc3339 q now)

-- ===== src/Query/Parser/Stages.antt =====
-- Pipe stages and whole queries (parser.go: `parsePipeStage` down to `parseHeadTailStage`,
-- `atPipeStageKeyword`, `parseQuery`, `Parse`).
use cairnobs.Base.{
  ℕ, zero, suc, Bool, true, false, ◌&&◌, ◌||◌, not, List, [], ◌∷◌, ◌++◌, none, some, if◌then◌else◌,
  Text, length,
}
use cairnobs.Query.Ast.{
  BoolExpr, AggCall, SortField, PipeStage, where_stage, stats_stage, sort_stage, fields_stage,
  head_stage, tail_stage, Query,
}
use cairnobs.Query.Lexer.{eof, ident, number, pipe, comma, lparen, rparen, minus, plus, star}
use cairnobs.Query.Parser.State.{
  Parser, unexpected_after_query, expected_stage, unknown_stage, expected_agg_func,
  unknown_agg_func, expected_alias, expected_sort_field, expected_field, invalid_number, Result, ok,
  err, out_of_fuel, Parse, ◌>>=◌, ◌>>◌, return, errorf, kind_eq, advance, expect, new_parser,
}
use cairnobs.Query.Parser.Terms.{spells, is_comparator_start, atoi, parse_bool_expr}

unfoldable pub is_valid_agg_func : Text → Bool
is_valid_agg_func f =
    spells f "count" || spells f "sum" || spells f "avg" || spells f "min" || spells f "max"

-- `for p.cur.Kind == lexer.Comma { p.advance(); x := element(); append }`, the loop that the
-- stages `stats`, `sort` and `fields` share.
unfoldable pub comma_loop : {A : Type 0} → ℕ → Parse A → List A → Parse (List A)
comma_loop zero element xs p = err out_of_fuel
comma_loop (suc f) element xs p =
    (if kind_eq p.cur.kind comma
        then (do advance; x ← element; comma_loop f element (xs ++ x ∷ []))
        else return xs)
      p

abbrev pub comma_list : {A : Type 0} → ℕ → Parse A → Parse (List A)
comma_list f element = do x ← element; comma_loop f element (x ∷ [])

unfoldable pub parse_field_ident : Parse Text
parse_field_ident p =
    (if kind_eq p.cur.kind ident
        then (do advance; return p.cur.value)
        else errorf (expected_field p.cur))
      p

-- Inside the parentheses of an aggregation: a field, a star or nothing.
unfoldable pub parse_agg_field : Parse Text
parse_agg_field p =
    (if kind_eq p.cur.kind ident
        then (do advance; expect rparen; return p.cur.value)
        else if kind_eq p.cur.kind star
        then (do advance; expect rparen; return [])
        else (do expect rparen; return []))
      p

unfoldable pub parse_agg_parens : Parse Text
parse_agg_parens p =
    (if kind_eq p.cur.kind lparen then (do advance; parse_agg_field) else return []) p

unfoldable pub parse_alias_name : Parse Text
parse_alias_name p =
    (if kind_eq p.cur.kind ident
        then (do advance; return p.cur.value)
        else errorf (expected_alias p.cur))
      p

unfoldable pub parse_agg_alias : Parse Text
parse_agg_alias p =
    (if kind_eq p.cur.kind ident && spells p.cur.value "as"
        then (do advance; parse_alias_name)
        else return [])
      p

unfoldable pub parse_agg_call : Parse AggCall
parse_agg_call p =
    (if not (kind_eq p.cur.kind ident)
        then errorf (expected_agg_func p.cur)
        else if not (is_valid_agg_func p.cur.value)
        then errorf (unknown_agg_func p.cur.value)
        else (do
          advance
          field ← parse_agg_parens
          alias ← parse_agg_alias
          return (record { func = p.cur.value; field = field; alias = alias })))
      p

unfoldable pub parse_by : ℕ → Parse (List Text)
parse_by f p =
    (if kind_eq p.cur.kind ident && spells p.cur.value "by"
        then (do advance; comma_list f parse_field_ident)
        else return [])
      p

unfoldable pub parse_stats_stage : ℕ → Parse PipeStage
parse_stats_stage f = do
  advance
  aggs ← comma_list f parse_agg_call
  by ← parse_by f
  return (stats_stage aggs by)

unfoldable pub parse_sort_name : Bool → Parse SortField
parse_sort_name desc p =
    (if kind_eq p.cur.kind ident
        then (do advance; return (record { field = p.cur.value; desc = desc }))
        else errorf (expected_sort_field p.cur))
      p

unfoldable pub parse_sort_field : Parse SortField
parse_sort_field p =
    (if kind_eq p.cur.kind minus
        then (do advance; parse_sort_name true)
        else if kind_eq p.cur.kind plus
        then (do advance; parse_sort_name false)
        else parse_sort_name true)
      p

unfoldable pub parse_sort_stage : ℕ → Parse PipeStage
parse_sort_stage f = do advance; fields ← comma_list f parse_sort_field; return (sort_stage fields)

unfoldable pub parse_fields_stage : ℕ → Parse PipeStage
parse_fields_stage f = do
  advance
  fields ← comma_list f parse_field_ident
  return (fields_stage fields)

abbrev pub limit_stage : Bool → ℕ → Bool → PipeStage
limit_stage tail n has_n = if tail then tail_stage n has_n else head_stage n has_n

unfoldable pub parse_limit : Bool → Parse PipeStage
parse_limit tail p =
    (if kind_eq p.cur.kind number
        then elim (atoi p.cur.value) [
          | none ↦ errorf (invalid_number p.cur.value)
          | some n ↦ (do advance; return (limit_stage tail n true))
        ]
        else return (limit_stage tail 0 false))
      p

unfoldable pub parse_head_tail_stage : Bool → Parse PipeStage
parse_head_tail_stage tail = do advance; parse_limit tail

unfoldable pub parse_where_stage : ℕ → Parse PipeStage
parse_where_stage f = do advance; e ← parse_bool_expr f; return (where_stage e)

unfoldable pub parse_pipe_stage : ℕ → Parse PipeStage
parse_pipe_stage f p =
    (if not (kind_eq p.cur.kind ident)
        then errorf (expected_stage p.cur)
        else if spells p.cur.value "where"
        then parse_where_stage f
        else if spells p.cur.value "stats"
        then parse_stats_stage f
        else if spells p.cur.value "sort"
        then parse_sort_stage f
        else if spells p.cur.value "fields"
        then parse_fields_stage f
        else if spells p.cur.value "head"
        then parse_head_tail_stage false
        else if spells p.cur.value "tail"
        then parse_head_tail_stage true
        else errorf (unknown_stage p.cur.value))
      p

unfoldable pub at_pipe_stage_keyword : Parser → Bool
at_pipe_stage_keyword p =
    kind_eq p.cur.kind ident
    && not (is_comparator_start p.next.kind)
    && (spells p.cur.value "where"
        || spells p.cur.value "stats"
        || spells p.cur.value "sort"
        || spells p.cur.value "fields"
        || spells p.cur.value "head"
        || spells p.cur.value "tail")

-- The loop over `"|" pipe_stage`, up to the end of the text.
unfoldable pub pipes_loop : ℕ → Query → Parse Query
pipes_loop zero q p = err out_of_fuel
pipes_loop (suc f) q p =
    (if kind_eq p.cur.kind pipe
        then (do
          advance
          stage ← parse_pipe_stage (suc f)
          pipes_loop f (record q { pipes = q.pipes ++ stage ∷ [] }))
        else if kind_eq p.cur.kind eof
        then return q
        else errorf (unexpected_after_query p.cur))
      p

abbrev pub empty_expr : BoolExpr
empty_expr = record { terms = []; conjs = [] }

unfoldable pub parse_query : ℕ → Parse Query
parse_query f p =
    (if at_pipe_stage_keyword p
        then (do
          stage ← parse_pipe_stage f
          pipes_loop f (record { base = empty_expr; pipes = stage ∷ [] }))
        else (do base ← parse_bool_expr f; pipes_loop f (record { base = base; pipes = [] })))
      p

abbrev pub value_of : {A : Type 0} → Result (A × Parser) → Result A
value_of (ok (a, _)) = ok a
value_of (err e) = err e

-- The fuel is more than the tokens that the text can hold.
unfoldable pub parse : Text → Result Query
parse s = value_of (parse_query (suc (length s)) (new_parser s))

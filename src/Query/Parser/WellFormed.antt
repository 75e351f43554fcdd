-- ===== src/Query/Parser/WellFormed.antt =====
-- The trees that parser.go builds: what their fields hold, and how their lists fit together.
use cairnobs.Base.{
  suc, ◌^◌, ◌<◌, Bool, true, not, ◌&&◌, ◌||◌, [], All, length, ltb, Text, is_empty, ◌≡◌, ◌≢◌, ◌⊎◌,
}
use cairnobs.Query.Ast.{
  TimeExpr, Term, comparison, time_bound, free_text, BoolExpr, AggCall, SortField, PipeStage,
  where_stage, stats_stage, sort_stage, fields_stage, head_stage, tail_stage, Query,
}
use cairnobs.Query.Lexer.Tokens.{is_name, is_comparator}
use cairnobs.Query.Parser.Stages.{is_valid_agg_func}
use cairnobs.Query.Parser.Terms.{is_valid_time_unit, spells}

-- A relative offset has a known unit and a number that fits an int64.
abbrev pub is_time_expr : TimeExpr → Bool
is_time_expr e =
    not e.is_relative || (is_valid_time_unit e.relative_unit && ltb e.relative_n (2 ^ 63))

abbrev pub is_bound_kind : Text → Bool
is_bound_kind k = spells k "earliest" || spells k "latest"

abbrev pub is_conj : Text → Bool
is_conj c = spells c "and" || spells c "or"

abbrev pub IsTerm : Term → Type 0
IsTerm (comparison f op v) = (is_name f ≡ true) × (is_comparator op ≡ true)
IsTerm (time_bound k e) = (is_bound_kind k ≡ true) × (is_time_expr e ≡ true)
IsTerm (free_text q) = Unit

-- One conjunction stands between two terms.
abbrev pub IsBoolExpr : BoolExpr → Type 0
IsBoolExpr e =
    (length e.terms ≡ suc (length e.conjs))
    × All IsTerm e.terms
    × All (λ c. is_conj c ≡ true) e.conjs

-- A field or an alias: a name, or empty where the query names none.
abbrev pub is_optional_name : Text → Bool
is_optional_name v = is_empty v || is_name v

abbrev pub IsAggCall : AggCall → Type 0
IsAggCall a =
    (is_valid_agg_func a.func ≡ true)
    × (is_optional_name a.field ≡ true)
    × (is_optional_name a.alias ≡ true)

abbrev pub IsName : Text → Type 0
IsName v = is_name v ≡ true

abbrev pub IsSortField : SortField → Type 0
IsSortField f = IsName f.field

abbrev pub IsStage : PipeStage → Type 0
IsStage (where_stage e) = IsBoolExpr e
IsStage (stats_stage aggs by) = (aggs ≢ []) × All IsAggCall aggs × All IsName by
IsStage (sort_stage fields) = (fields ≢ []) × All IsSortField fields
IsStage (fields_stage fields) = (fields ≢ []) × All IsName fields
IsStage (head_stage n has_n) = n < 2 ^ 63
IsStage (tail_stage n has_n) = n < 2 ^ 63

-- A query has a base search, or begins with a stage.
abbrev pub IsQuery : Query → Type 0
IsQuery q =
    (IsBoolExpr q.base ⊎ ((q.base.terms ≡ []) × (q.base.conjs ≡ []) × (q.pipes ≢ [])))
    × All IsStage q.pipes

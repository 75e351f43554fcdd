-- ===== src/Tests/Query.antt =====
-- The query language on fixed queries.
use cairnobs.Base.{
  ℕ, true, false, is_empty, all, text_eq, List, [], ◌∷◌, ◌++◌, Option, none, some, Text, codes, ◌≡◌,
  refl,
}
use cairnobs.Base.Int.{ℤ, pos}
use cairnobs.Base.Results.{Result, ok}
use cairnobs.Query.Ast.{Query, comparison, free_text, where_stage, fields_stage, tail_stage}
use cairnobs.Query.Executor.Execute.{Executed, execute, run_plan, with_ids, execute-Executed}
use cairnobs.Query.Executor.Quoting.{in_text, read_literal, read_literal-escape_literal}
use cairnobs.Query.Executor.Scanner.{IsClosed}
use cairnobs.Query.Executor.Sql.{build_sql, escape_literal}
use cairnobs.Query.Executor.Statement.{build_sql-IsClosed}
use cairnobs.Query.Ir.{Plan, empty_plan}
use cairnobs.Query.Lexer
use cairnobs.Query.Lexer.{Lexer, is_ident_start, is_ident_part, is_digit}
use cairnobs.Query.Lexer.Splits.{Advances, next-Advances}
use cairnobs.Query.Lexer.Tokens.{
  is_name, begins_name, continues_name, is_comparator, ValidToken, next-ValidToken,
}
use cairnobs.Query.Parser.Total.{Answers, parse-Answers}
use cairnobs.Query.Parser.Stages.{parse}
use cairnobs.Query.Planner.Compile.{
  compile_query, compile_bool_expr, compile_terms, compile_term, conj_at, compile_stages,
}
use cairnobs.Query.Planner.Additions.{Yields}
use cairnobs.Query.Planner.Reads.{SaysWhat, compile_query-SaysWhat}
use cairnobs.Query.Planner.Accepted.{is_ok, accepted, compile_query-accepted}
use cairnobs.Query.Planner.Sound.{IsPlan}

abbrev query : Text
query = codes "service=api | where status>=500 | stats count by host | sort -count | head 5"

abbrev no_time : Text → Option ℤ
no_time s = none

abbrev no_format : ℤ → Text
no_format t = []

abbrev plan : Plan
plan = record empty_plan {
  filters = record { field = codes "service"; op = codes "="; value = codes "it's \\ here" } ∷ [];
}

plan-IsPlan : IsPlan plan
unfolding is_name is_comparator all begins_name continues_name text_eq
plan-IsPlan = record {
  no_raw_sql = refl;
  filters = ((refl, refl), tt);
  aggregation = tt;
  sort = tt;
  fields = tt;
  limit = tt;
}

parse-Answers_example : Answers (parse query)
parse-Answers_example = parse-Answers query

read_literal-escape_literal_example :
    read_literal in_text (escape_literal (codes "it's \\") ++ (b'\'' ∷ codes " OR 1=1"))
    ≡ some (codes "it's \\", codes " OR 1=1")
read_literal-escape_literal_example =
    read_literal-escape_literal (codes "it's \\") (codes " OR 1=1") refl

build_sql-IsClosed_example : IsClosed (build_sql no_format plan (codes "a'b" ∷ []))
build_sql-IsClosed_example = build_sql-IsClosed no_format plan (codes "a'b" ∷ []) plan-IsPlan

next-Advances_example : Advances (Lexer.new query) (Lexer.next (Lexer.new query))
next-Advances_example = next-Advances (Lexer.new query)

next-ValidToken_example : ValidToken (Lexer.next (Lexer.new query)).0
next-ValidToken_example = next-ValidToken (Lexer.new query)

-- A runner that gives the statement back, and a search that finds one record.
abbrev echo : Text → Result Text Text
echo s = ok s

abbrev find_one : Text → ℕ → Result Text (List Text)
find_one q n = ok (codes "r1" ∷ [])

abbrev searching : Plan
searching = record plan { text_search = record { query = codes "timeout" } ∷ [] }

searching-IsPlan : IsPlan searching
searching-IsPlan = record {
  no_raw_sql = refl;
  filters = plan-IsPlan.filters;
  aggregation = tt;
  sort = tt;
  fields = tt;
  limit = tt;
}

execute-Executed_example :
    Executed no_format echo find_one [] searching (execute no_format echo find_one [] searching)
execute-Executed_example = execute-Executed no_format echo find_one [] searching searching-IsPlan

-- What is found goes into the statement.
searching_run :
    execute no_format echo find_one [] searching
    ≡ ok (build_sql no_format searching (codes "r1" ∷ []))
unfolding execute run_plan with_ids is_empty
searching_run = refl

-- service=api timeout | where status>=500 | fields host | tail
abbrev tree : Query
tree = record {
  base = record {
    terms =
        comparison (codes "service") (codes "=") (codes "api") ∷ free_text (codes "timeout") ∷ [];
    conjs = codes "and" ∷ [];
  };
  pipes =
      where_stage
        (record { terms = comparison (codes "status") (codes ">=") (codes "500") ∷ []; conjs = [] })
      ∷ fields_stage (codes "host" ∷ [])
      ∷ tail_stage 0 false
      ∷ [];
}

compile_query-SaysWhat_example : Yields (SaysWhat tree) (compile_query no_time tree (pos 0))
compile_query-SaysWhat_example = compile_query-SaysWhat no_time tree (pos 0)

-- status=500 or timeout
abbrev mixed : Query
mixed = record {
  base = record {
    terms =
        comparison (codes "status") (codes "=") (codes "500") ∷ free_text (codes "timeout") ∷ [];
    conjs = codes "or" ∷ [];
  };
  pipes = [];
}

compile_query-accepted_example :
    is_ok (compile_query no_time mixed (pos 0)) ≡ accepted no_time (pos 0) mixed
compile_query-accepted_example = compile_query-accepted no_time mixed (pos 0)

mixed_run : is_ok (compile_query no_time mixed (pos 0)) ≡ true
unfolding compile_query compile_bool_expr compile_terms compile_term conj_at compile_stages text_eq
mixed_run = refl

-- ===== src/Tests/Runs.antt =====
-- One query from its text to the statement that ClickHouse runs.
use cairnobs.Base.{take_while, drop_while, all, any}
use cairnobs.Base.{
  text_eq, is_empty, has_code, join, is_space, trim_space, to_upper, fold_case, digits_onto,
  decimal_text,
}
use cairnobs.Base.Int.{◌+ℤ◌, ◌-ℤ◌}
use cairnobs.Query.Lexer.{
  is_eof, is_digit, is_ident_start, is_ident_part, is_blank, skip_whitespace, string_loop, fraction,
  after_fraction, lex_number, lex_ident, lex_char, next_at,
}
use cairnobs.Query.Parser.State.{kind_code, kind_eq, new_parser, advance, expect}
use cairnobs.Query.Parser.Terms.{
  is_comparator_start, can_start_term, is_valid_time_unit, decimal, atoi, parse_comparator,
  parse_value, parse_comparison, parse_unit, parse_offset, parse_time_expr, parse_time_bound,
  parse_quoted, parse_explicit_free_text, parse_term, at_conj, bool_expr_loop, parse_bool_expr,
}
use cairnobs.Query.Parser.Stages.{
  is_valid_agg_func, comma_loop, parse_field_ident, parse_agg_field, parse_agg_parens,
  parse_alias_name, parse_agg_alias, parse_agg_call, parse_by, parse_stats_stage, parse_sort_name,
  parse_sort_field, parse_sort_stage, parse_fields_stage, parse_limit, parse_head_tail_stage,
  parse_where_stage, parse_pipe_stage, at_pipe_stage_keyword, pipes_loop, parse_query, parse,
}
use cairnobs.Query.Planner.Guard.{
  is_word, boundary, match_word, word_here, any_word_here, match_string, is_pattern_space, at_paren,
  call_behind, has_disallowed_keyword, has_disallowed_table_function, first_field, looks_like_sql,
  trim_semicolon, statement, validate_select_only,
}
use cairnobs.Query.Planner.Compile.{
  to_int64, neg_int64, unit_duration, offset, resolve_time_expr, set_time_bound, escape_quotes,
  text_part, add_text_part, conj_at, compile_term, compile_terms, compile_bool_expr,
  default_agg_alias, agg_alias, compile_aggs, compile_stage, compile_stages, set_text_search,
  compile_query, is_sql, compile,
}
use cairnobs.Query.Executor.Sql.{
  is_top_level, double_ticks, quote_ident, escape_literal, quote_literal, column_expr, ends_number,
  is_unsigned_literal, is_numeric_literal, build_comparison_sql, agg_expr, select_fields, select_of,
  select_clause, sort_column_of, sort_column_expr, order_by, limit_clause, id_condition,
  time_conditions, build_where_clause, where_clause, group_clause, build_sql,
}
use cairnobs.Base.{[], none, Text, codes, ◌≡◌, refl}
use cairnobs.Base.Int.{pos}
use cairnobs.Base.Results.{Result, ok, err}
use cairnobs.Query.Ir.{Plan}
use cairnobs.Query.Lexer
use cairnobs.Query.Executor.Sql
use cairnobs.Query.Planner.Compile.{Error}

abbrev statement_of : Result Error Plan → Text
statement_of (ok plan) = build_sql (λ t. []) plan []
statement_of (err e) = []

stats_query :
    statement_of (
      compile
        (λ s. none)
        (codes "service=api | where status>=500 | stats count by host | sort -count | head 5")
        []
        (pos 0))
    ≡ codes
        "SELECT `host` AS `host`, count() AS `count` FROM logs WHERE `service` = 'api' AND toFloat64OrZero(attributes['status']) >= 500 GROUP BY `host` ORDER BY `count` DESC LIMIT 5"
unfolding take_while drop_while all any text_eq is_empty has_code join is_space trim_space to_upper
    fold_case digits_onto decimal_text ◌+ℤ◌ ◌-ℤ◌ is_eof is_digit is_ident_start is_ident_part
    is_blank skip_whitespace string_loop fraction after_fraction lex_number lex_ident lex_char
    next_at kind_code kind_eq new_parser advance expect is_comparator_start can_start_term
    is_valid_time_unit decimal atoi parse_comparator parse_value parse_comparison parse_unit
    parse_offset parse_time_expr parse_time_bound parse_quoted parse_explicit_free_text parse_term
    at_conj bool_expr_loop parse_bool_expr is_valid_agg_func comma_loop parse_field_ident
    parse_agg_field parse_agg_parens parse_alias_name parse_agg_alias parse_agg_call parse_by
    parse_stats_stage parse_sort_name parse_sort_field parse_sort_stage parse_fields_stage
    parse_limit parse_head_tail_stage parse_where_stage parse_pipe_stage at_pipe_stage_keyword
    pipes_loop parse_query parse is_word boundary match_word word_here any_word_here match_string
    is_pattern_space at_paren call_behind has_disallowed_keyword has_disallowed_table_function
    first_field looks_like_sql trim_semicolon statement validate_select_only to_int64 neg_int64
    unit_duration offset resolve_time_expr set_time_bound escape_quotes text_part add_text_part
    conj_at compile_term compile_terms compile_bool_expr default_agg_alias agg_alias compile_aggs
    compile_stage compile_stages set_text_search compile_query is_sql compile is_top_level
    double_ticks quote_ident escape_literal quote_literal column_expr ends_number
    is_unsigned_literal is_numeric_literal build_comparison_sql agg_expr select_fields select_of
    select_clause sort_column_of sort_column_expr order_by limit_clause id_condition time_conditions
    build_where_clause where_clause group_clause build_sql Lexer.next Lexer.new Sql.group_by
stats_query = refl

-- A `tail` stage orders the oldest rows first.
tail_query :
    statement_of (compile (λ s. none) (codes "tail 2") [] (pos 0))
    ≡ codes "SELECT * FROM logs ORDER BY `timestamp` ASC LIMIT 2"
unfolding take_while drop_while all any text_eq is_empty has_code join is_space trim_space to_upper
    fold_case digits_onto decimal_text ◌+ℤ◌ ◌-ℤ◌ is_eof is_digit is_ident_start is_ident_part
    is_blank skip_whitespace string_loop fraction after_fraction lex_number lex_ident lex_char
    next_at kind_code kind_eq new_parser advance expect is_comparator_start can_start_term
    is_valid_time_unit decimal atoi parse_comparator parse_value parse_comparison parse_unit
    parse_offset parse_time_expr parse_time_bound parse_quoted parse_explicit_free_text parse_term
    at_conj bool_expr_loop parse_bool_expr is_valid_agg_func comma_loop parse_field_ident
    parse_agg_field parse_agg_parens parse_alias_name parse_agg_alias parse_agg_call parse_by
    parse_stats_stage parse_sort_name parse_sort_field parse_sort_stage parse_fields_stage
    parse_limit parse_head_tail_stage parse_where_stage parse_pipe_stage at_pipe_stage_keyword
    pipes_loop parse_query parse is_word boundary match_word word_here any_word_here match_string
    is_pattern_space at_paren call_behind has_disallowed_keyword has_disallowed_table_function
    first_field looks_like_sql trim_semicolon statement validate_select_only to_int64 neg_int64
    unit_duration offset resolve_time_expr set_time_bound escape_quotes text_part add_text_part
    conj_at compile_term compile_terms compile_bool_expr default_agg_alias agg_alias compile_aggs
    compile_stage compile_stages set_text_search compile_query is_sql compile is_top_level
    double_ticks quote_ident escape_literal quote_literal column_expr ends_number
    is_unsigned_literal is_numeric_literal build_comparison_sql agg_expr select_fields select_of
    select_clause sort_column_of sort_column_expr order_by limit_clause id_condition time_conditions
    build_where_clause where_clause group_clause build_sql Lexer.next Lexer.new Sql.group_by
tail_query = refl

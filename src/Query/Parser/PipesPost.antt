-- ===== src/Query/Parser/PipesPost.antt =====
-- Every pipe stage of parser.go ends and is well formed.
use cairnobs.Base.{
  ℕ, suc, ◌<◌, ◌^◌, Bool, true, false, not, ◌&&◌, [], none, some, if◌then◌else◌, All, ◌≡◌, refl,
  arith, &&-eq-true, Option-cases, inl, inr,
}
use cairnobs.Query.Ast.{PipeStage, where_stage, stats_stage, sort_stage, fields_stage}
use cairnobs.Query.Lexer.{Kind, ident, number, minus, plus, is_eof}
use cairnobs.Query.Parser.Post.{
  size, IsState, Post, refuses, bind-Post, weaken-Post, branch-Post, advance_strict-Post, not_eof,
}
use cairnobs.Query.Parser.BoolExprPost.{parse_bool_expr-Post}
use cairnobs.Query.Parser.TermsPost.{give-Post, take-Post, then-Post, atoi-lt}
use cairnobs.Query.Parser.State.{
  Parser, Parse, ◌>>=◌, ◌>>◌, return, errorf, kind_eq, advance, expected_stage, unknown_stage,
  expected_sort_field, invalid_number,
}
use cairnobs.Query.Parser.Stages.{
  comma_list, parse_field_ident, parse_agg_call, parse_by, parse_stats_stage, parse_sort_name,
  parse_sort_field, parse_sort_stage, parse_fields_stage, limit_stage, parse_limit,
  parse_head_tail_stage, parse_where_stage, parse_pipe_stage,
}
use cairnobs.Query.Parser.Terms.{spells, atoi, parse_bool_expr}
use cairnobs.Query.Parser.WellFormed.{IsAggCall, IsName, IsSortField, IsStage}
use cairnobs.Query.Parser.StagesPost.{
  comma_list-Post, ident-Post, parse_field_ident-Post, parse_agg_call-Post,
}

by-Post :
    (f : ℕ) (p : Parser) → IsState p → size p < f → Post (size p) 0 (All IsName) (parse_by f p)
unfolding parse_by is_eof
by-Post f p s enough =
    branch-Post p (kind_eq p.cur.kind ident && spells p.cur.value "by")
      (do advance; comma_list f parse_field_ident) (return [])
      (λ h.
        weaken-Post 0 ((do advance; comma_list f parse_field_ident) p)
          (bind-Post 1 (advance p) (λ _. comma_list f parse_field_ident)
            (advance_strict-Post p s (not_eof p.cur.kind ident refl (&&-eq-true _ _ h).0))
            λ _ q _ s' le.
              comma_list-Post IsName parse_field_ident parse_field_ident-Post f q s' (omega arith))
          (omega arith) (λ _ x. x.1))
      (λ _. give-Post [] p tt s)

-- The first token of a stage is its keyword.
abbrev AtKeyword : Parser → Type 0
AtKeyword p = kind_eq p.cur.kind ident ≡ true

keyword-not_eof : (p : Parser) → AtKeyword p → is_eof p.cur.kind ≡ false
unfolding is_eof
keyword-not_eof p h = not_eof p.cur.kind ident refl h

module _ (f : ℕ) (p : Parser) (s : IsState p) (h : AtKeyword p) (enough : size p < suc f) where
  parse_stats_stage-Post : Post (size p) 2 IsStage (parse_stats_stage f p)
  unfolding parse_stats_stage
  parse_stats_stage-Post =
      bind-Post 1 (advance p)
        (λ _. do aggs ← comma_list f parse_agg_call; by ← parse_by f; return (stats_stage aggs by))
        (advance_strict-Post p s (keyword-not_eof p h))
        λ _ q _ s' le.
          bind-Post 0 (comma_list f parse_agg_call q)
            (λ aggs. do by ← parse_by f; return (stats_stage aggs by))
            (comma_list-Post IsAggCall parse_agg_call parse_agg_call-Post f q s' (omega arith))
            λ aggs q' ha s'' le'.
              bind-Post 0 (parse_by f q') (λ by. return (stats_stage aggs by))
                (by-Post f q' s'' (omega arith))
                λ by q'' hb s3 _. give-Post (stats_stage aggs by) q'' (ha.0, ha.1, hb) s3

  parse_fields_stage-Post : Post (size p) 2 IsStage (parse_fields_stage f p)
  unfolding parse_fields_stage
  parse_fields_stage-Post =
      bind-Post 1 (advance p)
        (λ _. do fields ← comma_list f parse_field_ident; return (fields_stage fields))
        (advance_strict-Post p s (keyword-not_eof p h))
        λ _ q _ s' le.
          bind-Post 0 (comma_list f parse_field_ident q) (λ fields. return (fields_stage fields))
            (comma_list-Post IsName parse_field_ident parse_field_ident-Post f q s' (omega arith))
            λ xs q' hx s'' _. give-Post (fields_stage xs) q' hx s''

  parse_where_stage-Post : Post (size p) 2 IsStage (parse_where_stage f p)
  unfolding parse_where_stage
  parse_where_stage-Post =
      bind-Post 1 (advance p) (λ _. do e ← parse_bool_expr f; return (where_stage e))
        (advance_strict-Post p s (keyword-not_eof p h))
        λ _ q _ s' le.
          bind-Post 0 (parse_bool_expr f q) (λ e. return (where_stage e))
            (parse_bool_expr-Post f q s' (omega arith))
            λ e q' he s'' _. give-Post (where_stage e) q' he s''

parse_sort_name-Post :
    (desc : Bool) (p : Parser) → IsState p → Post (size p) 1 IsSortField (parse_sort_name desc p)
unfolding parse_sort_name
parse_sort_name-Post desc p s =
    branch-Post p (kind_eq p.cur.kind ident)
      (do advance; return (record { field = p.cur.value; desc = desc }))
      (errorf (expected_sort_field p.cur))
      (λ h. ident-Post IsSortField (record { field = p.cur.value; desc = desc }) p s h (λ n. n))
      (λ _. refuses)

parse_sort_field-Post : (p : Parser) → IsState p → Post (size p) 1 IsSortField (parse_sort_field p)
unfolding parse_sort_field is_eof
parse_sort_field-Post p s =
    let signed : (desc : Bool) (k : Kind)
        → is_eof k ≡ false
        → kind_eq p.cur.kind k ≡ true
        → Post (size p) 1 IsSortField ((do advance; parse_sort_name desc) p) =
      λ desc k f h.
        weaken-Post 1 ((do advance; parse_sort_name desc) p)
          (then-Post 1 IsSortField (parse_sort_name desc) p s (not_eof p.cur.kind k f h)
            (parse_sort_name-Post desc))
          (omega arith) (λ _ x. x) in
    branch-Post p (kind_eq p.cur.kind minus) (do advance; parse_sort_name true)
      (if kind_eq p.cur.kind plus
        then (do advance; parse_sort_name false)
        else parse_sort_name true)
      (signed true minus refl)
      λ _.
        branch-Post p (kind_eq p.cur.kind plus) (do advance; parse_sort_name false)
          (parse_sort_name true) (signed false plus refl) (λ _. parse_sort_name-Post true p s)

parse_sort_stage-Post :
    (f : ℕ) (p : Parser)
    → IsState p
    → AtKeyword p
    → size p < suc f
    → Post (size p) 2 IsStage (parse_sort_stage f p)
unfolding parse_sort_stage
parse_sort_stage-Post f p s h enough =
    bind-Post 1 (advance p)
      (λ _. do fields ← comma_list f parse_sort_field; return (sort_stage fields))
      (advance_strict-Post p s (keyword-not_eof p h))
      λ _ q _ s' le.
        bind-Post 0 (comma_list f parse_sort_field q) (λ fields. return (sort_stage fields))
          (comma_list-Post IsSortField parse_sort_field parse_sort_field-Post f q s' (omega arith))
          λ xs q' hx s'' _. give-Post (sort_stage xs) q' hx s''

limit_stage-IsStage :
    (tail : Bool) (n : ℕ) (has_n : Bool) → n < 2 ^ 63 → IsStage (limit_stage tail n has_n)
limit_stage-IsStage true n has_n h = h
limit_stage-IsStage false n has_n h = h

parse_limit-Post :
    (tail : Bool) (p : Parser) → IsState p → Post (size p) 0 IsStage (parse_limit tail p)
unfolding parse_limit is_eof
parse_limit-Post tail p s =
    branch-Post p (kind_eq p.cur.kind number)
      (elim (atoi p.cur.value) [
        | none ↦ errorf (invalid_number p.cur.value)
        | some n ↦ (do advance; return (limit_stage tail n true))
      ])
      (return (limit_stage tail 0 false))
      (λ h. elim (Option-cases (atoi p.cur.value)) [
        | inl e ↦ rw e refuses
        | inr (n, e) ↦ rw e (
            weaken-Post 0 ((do advance; return (limit_stage tail n true)) p)
              (take-Post IsStage (limit_stage tail n true) p s (not_eof p.cur.kind number refl h)
                (limit_stage-IsStage tail n true (atoi-lt p.cur.value e)))
              (omega arith) (λ _ x. x))
      ])
      (λ _.
        give-Post (limit_stage tail 0 false) p (limit_stage-IsStage tail 0 false (omega arith)) s)

parse_head_tail_stage-Post :
    (tail : Bool) (p : Parser)
    → IsState p
    → AtKeyword p
    → Post (size p) 1 IsStage (parse_head_tail_stage tail p)
unfolding parse_head_tail_stage
parse_head_tail_stage-Post tail p s h =
    then-Post 0 IsStage (parse_limit tail) p s (keyword-not_eof p h) (parse_limit-Post tail)

-- A pipe stage ends, takes at least one token, and is well formed.
pub parse_pipe_stage-Post :
    (f : ℕ) (p : Parser)
    → IsState p
    → size p < suc f
    → Post (size p) 1 IsStage (parse_pipe_stage f p)
unfolding parse_pipe_stage
parse_pipe_stage-Post f p s enough =
    let v = p.cur.value in
    let one : (r : _) → Post (size p) 2 IsStage r → Post (size p) 1 IsStage r =
      λ r h. weaken-Post 1 r h (omega arith) (λ _ x. x) in
    let on_tail : Parse PipeStage =
      if spells v "tail" then parse_head_tail_stage true else errorf (unknown_stage v) in
    let on_head : Parse PipeStage =
      if spells v "head" then parse_head_tail_stage false else on_tail in
    let on_fields : Parse PipeStage = if spells v "fields" then parse_fields_stage f else on_head in
    let on_sort : Parse PipeStage = if spells v "sort" then parse_sort_stage f else on_fields in
    let on_stats : Parse PipeStage = if spells v "stats" then parse_stats_stage f else on_sort in
    let on_where : Parse PipeStage = if spells v "where" then parse_where_stage f else on_stats in
    branch-Post p (not (kind_eq p.cur.kind ident)) (errorf (expected_stage p.cur)) on_where
      (λ _. refuses)
      λ n.
        let h : AtKeyword p = ground arith in
        branch-Post p (spells v "where") (parse_where_stage f) on_stats
          (λ _. one (parse_where_stage f p) (parse_where_stage-Post f p s h enough))
          λ _.
            branch-Post p (spells v "stats") (parse_stats_stage f) on_sort
              (λ _. one (parse_stats_stage f p) (parse_stats_stage-Post f p s h enough))
              λ _.
                branch-Post p (spells v "sort") (parse_sort_stage f) on_fields
                  (λ _. one (parse_sort_stage f p) (parse_sort_stage-Post f p s h enough))
                  λ _.
                    branch-Post p (spells v "fields") (parse_fields_stage f) on_head
                      (λ _. one (parse_fields_stage f p) (parse_fields_stage-Post f p s h enough))
                      λ _.
                        branch-Post p (spells v "head") (parse_head_tail_stage false) on_tail
                          (λ _. parse_head_tail_stage-Post false p s h)
                          λ _.
                            branch-Post p (spells v "tail") (parse_head_tail_stage true)
                              (errorf (unknown_stage v))
                              (λ _. parse_head_tail_stage-Post true p s h) (λ _. refuses)

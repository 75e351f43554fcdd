-- ===== src/Query/Parser/Total.antt =====
-- `Parse` as a whole: it ends on every text, and what it accepts is well formed.
use cairnobs.Base.{
  ℕ, zero, suc, ◌<◌, [], ◌∷◌, ◌++◌, if◌then◌else◌, length, Text, All-concat, ◌≡◌, ◌≢◌, ◌⊎◌, inl,
  inr, refl, arith,
}
use mathlib.Core.List.{concat-ne-nil}
use cairnobs.Query.Ast.{PipeStage, Query}
use cairnobs.Query.Lexer.{eof, pipe, is_eof}
use cairnobs.Query.Parser.BoolExprPost.{parse_bool_expr-Post}
use cairnobs.Query.Parser.PipesPost.{parse_pipe_stage-Post}
use cairnobs.Query.Parser.Post.{
  size, IsState, Post, returns, refuses, bind-Post, weaken-Post, branch-Post, advance_strict-Post,
  not_eof, new_parser-IsState, size-new_parser,
}
use cairnobs.Query.Parser.Stages.{
  parse_pipe_stage, at_pipe_stage_keyword, pipes_loop, empty_expr, parse_query, value_of, parse,
}
use cairnobs.Query.Parser.State.{
  Parser, Reason, unexpected_after_query, Result, ok, err, syntax, Parse, ◌>>=◌, ◌>>◌, return,
  errorf, kind_eq, advance, new_parser,
}
use cairnobs.Query.Parser.Terms.{parse_bool_expr}
use cairnobs.Query.Parser.TermsPost.{give-Post}
use cairnobs.Query.Parser.WellFormed.{IsBoolExpr, IsStage, IsQuery}

-- One more stage keeps a query well formed.
add_stage-IsQuery :
    (q : Query) (stage : PipeStage)
    → IsQuery q
    → IsStage stage
    → IsQuery (record q { pipes = q.pipes ++ stage ∷ [] })
add_stage-IsQuery q stage w h = (grow w.0, All-concat IsStage q.pipes stage w.1 h)
  where
    grow :
        IsBoolExpr q.base ⊎ ((q.base.terms ≡ []) × (q.base.conjs ≡ []) × (q.pipes ≢ []))
        → IsBoolExpr q.base
          ⊎ ((q.base.terms ≡ []) × (q.base.conjs ≡ []) × ((q.pipes ++ stage ∷ []) ≢ []))
    grow (inl e) = inl e
    grow (inr (t, c, _)) = inr (t, c, concat-ne-nil stage q.pipes)

pipes_loop-Post :
    (f : ℕ) (q : Query) (p : Parser)
    → IsQuery q
    → IsState p
    → size p < f
    → Post (size p) 0 IsQuery (pipes_loop f q p)
unfolding pipes_loop is_eof
pipes_loop-Post zero q p w s enough = absurd (omega arith)
pipes_loop-Post (suc f) q p w s enough =
    let more : Parse Query = (do
      advance
      stage ← parse_pipe_stage (suc f)
      pipes_loop f (record q { pipes = q.pipes ++ stage ∷ [] })) in
    branch-Post p (kind_eq p.cur.kind pipe) more
      (if kind_eq p.cur.kind eof then return q else errorf (unexpected_after_query p.cur))
      (λ h.
        weaken-Post 0 (more p)
          (bind-Post 1 (advance p)
            (λ _. do
              stage ← parse_pipe_stage (suc f)
              pipes_loop f (record q { pipes = q.pipes ++ stage ∷ [] }))
            (advance_strict-Post p s (not_eof p.cur.kind pipe refl h))
            λ _ r _ s' le.
              bind-Post 0 (parse_pipe_stage (suc f) r)
                (λ stage. pipes_loop f (record q { pipes = q.pipes ++ stage ∷ [] }))
                (parse_pipe_stage-Post (suc f) r s' (omega arith))
                λ stage r' hs s'' le'.
                  pipes_loop-Post f (record q { pipes = q.pipes ++ stage ∷ [] }) r'
                    (add_stage-IsQuery q stage w hs) s'' (omega arith))
          (omega arith) (λ _ x. x))
      λ _.
        branch-Post p (kind_eq p.cur.kind eof) (return q) (errorf (unexpected_after_query p.cur))
          (λ _. give-Post q p w s) (λ _. refuses)

parse_query-Post :
    (f : ℕ) (p : Parser) → IsState p → size p < f → Post (size p) 1 IsQuery (parse_query f p)
unfolding parse_query
parse_query-Post f p s enough =
    let staged : Parse Query = (do
      stage ← parse_pipe_stage f
      pipes_loop f (record { base = empty_expr; pipes = stage ∷ [] })) in
    let based : Parse Query = (do
      base ← parse_bool_expr f
      pipes_loop f (record { base = base; pipes = [] })) in
    branch-Post p (at_pipe_stage_keyword p) staged based
      (λ _.
        bind-Post 0 (parse_pipe_stage f p)
          (λ stage. pipes_loop f (record { base = empty_expr; pipes = stage ∷ [] }))
          (parse_pipe_stage-Post f p s (omega arith))
          λ stage q h s' le.
            pipes_loop-Post f (record { base = empty_expr; pipes = stage ∷ [] }) q
              (inr (refl, refl, concat-ne-nil stage []), (h, tt)) s' (omega arith))
      (λ _.
        bind-Post 0 (parse_bool_expr f p)
          (λ base. pipes_loop f (record { base = base; pipes = [] }))
          (parse_bool_expr-Post f p s (omega arith))
          λ base q h s' le.
            pipes_loop-Post f (record { base = base; pipes = [] }) q (inl h, tt) s' (omega arith))

-- What `Parse` can answer: a well-formed query or a syntax error.
pub data Answers : Result Query → Type 0 where
  accepts : {q : Query} → IsQuery q → Answers (ok q)
  rejects : {at : ℕ} {r : Reason} → Answers (err (syntax at r))

answer : {n k : ℕ} (r : Result (Query × Parser)) → Post n k IsQuery r → Answers (value_of r)
answer (ok (q, p)) (returns h s le) = accepts h
answer (err e) refuses = rejects

-- On every text `Parse` ends, with a syntax error at a position or with a well-formed query: one
-- conjunction between two terms, known comparators, units and aggregations, names for fields,
-- numbers that fit an int64, and no empty list where the grammar asks for one item.
pub parse-Answers : (s : Text) → Answers (parse s)
unfolding parse
parse-Answers s = answer (parse_query (suc (length s)) (new_parser s)) (
    parse_query-Post (suc (length s)) (new_parser s) (new_parser-IsState s)
      (omega (arith, size-new_parser s)))

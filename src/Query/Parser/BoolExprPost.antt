-- ===== src/Query/Parser/BoolExprPost.antt =====
-- The loop of `parseBoolExpr` ends and keeps a conjunction between any two terms.
use cairnobs.Base.{
  ℕ, zero, suc, ◌<◌, true, [], ◌∷◌, if◌then◌else◌, Text, codes, text_eq, length-append, All-concat,
  ◌≡◌, refl, arith, &&-eq-true,
}
use cairnobs.Query.Ast.{Term, BoolExpr}
use cairnobs.Query.Lexer.{ident, is_eof}
use cairnobs.Query.Parser.Post.{
  size, IsState, Post, bind-Post, weaken-Post, branch-Post, advance_strict-Post, not_eof,
}
use cairnobs.Query.Parser.State.{Parser, Parse, ◌>>=◌, ◌>>◌, return, kind_eq, advance}
use cairnobs.Query.Parser.Terms.{
  can_start_term, parse_term, add_term, at_conj, bool_expr_loop, parse_bool_expr,
}
use cairnobs.Query.Parser.WellFormed.{is_conj, IsTerm, IsBoolExpr}
use cairnobs.Query.Parser.TermsPost.{give-Post, parse_term-Post}

add_term-IsBoolExpr :
    (e : BoolExpr) (conj : Text) (t : Term)
    → IsBoolExpr e
    → is_conj conj ≡ true
    → IsTerm t
    → IsBoolExpr (add_term e conj t)
add_term-IsBoolExpr e conj t w c h = (
  omega (arith, length-append e.terms (t ∷ []), length-append e.conjs (conj ∷ [])),
  All-concat IsTerm e.terms t w.1 h,
  All-concat (λ c. is_conj c ≡ true) e.conjs conj w.2 c,
)

and_is_conj : is_conj (codes "and") ≡ true
unfolding text_eq
and_is_conj = refl

-- With more fuel than tokens the loop ends.
pub bool_expr_loop-Post :
    (f : ℕ) (e : BoolExpr) (p : Parser)
    → IsBoolExpr e
    → IsState p
    → size p < f
    → Post (size p) 0 IsBoolExpr (bool_expr_loop f e p)
unfolding bool_expr_loop at_conj is_eof
bool_expr_loop-Post zero e p w s enough = absurd (omega arith)
bool_expr_loop-Post (suc f) e p w s enough =
    let joined : Parse BoolExpr = (do
      advance
      t ← parse_term
      bool_expr_loop f (add_term e p.cur.value t)) in
    let adjacent : Parse BoolExpr = (do
      t ← parse_term
      bool_expr_loop f (add_term e (codes "and") t)) in
    branch-Post p (at_conj p.cur) joined (if can_start_term p.cur.kind then adjacent else return e)
      (λ h.
        let c = &&-eq-true (kind_eq p.cur.kind ident) (is_conj p.cur.value) h in
        weaken-Post 0 (joined p)
          (bind-Post 1 (advance p)
            (λ _. do t ← parse_term; bool_expr_loop f (add_term e p.cur.value t))
            (advance_strict-Post p s (not_eof p.cur.kind ident refl c.0))
            λ _ q _ s' le.
              bind-Post 0 (parse_term q) (λ t. bool_expr_loop f (add_term e p.cur.value t))
                (parse_term-Post q s')
                λ t q' ht s'' le'.
                  bool_expr_loop-Post f (add_term e p.cur.value t) q'
                    (add_term-IsBoolExpr e p.cur.value t w c.1 ht) s'' (omega arith))
          (omega arith) (λ _ x. x))
      λ _.
        branch-Post p (can_start_term p.cur.kind) adjacent (return e)
          (λ _.
            weaken-Post 0 (adjacent p)
              (bind-Post 0 (parse_term p) (λ t. bool_expr_loop f (add_term e (codes "and") t))
                (parse_term-Post p s)
                λ t q' ht s'' le'.
                  bool_expr_loop-Post f (add_term e (codes "and") t) q'
                    (add_term-IsBoolExpr e (codes "and") t w and_is_conj ht) s'' (omega arith))
              (omega arith) (λ _ x. x))
          λ _. give-Post e p w s

pub parse_bool_expr-Post :
    (f : ℕ) (p : Parser)
    → IsState p
    → size p < suc f
    → Post (size p) 1 IsBoolExpr (parse_bool_expr f p)
unfolding parse_bool_expr
parse_bool_expr-Post f p s enough =
    bind-Post 0 (parse_term p) (λ t. bool_expr_loop f (record { terms = t ∷ []; conjs = [] }))
      (parse_term-Post p s)
      λ t q h s' le.
        bool_expr_loop-Post f (record { terms = t ∷ []; conjs = [] }) q (refl, (h, tt), tt) s'
          (omega arith)

-- ===== src/Query/Parser/StagesPost.antt =====
-- Each parse step of Parser/Stages ends, takes tokens and builds a well-formed stage.
use cairnobs.Base.{
  ℕ, zero, suc, ◌<◌, true, not, ◌&&◌, List, [], ◌∷◌, ◌++◌, if◌then◌else◌, is_empty, All, All-concat,
  ◌≡◌, ◌≢◌, refl, arith, &&-eq-true,
}
use mathlib.Core.List.{concat-ne-nil}
use cairnobs.Query.Ast.{AggCall}
use cairnobs.Query.Lexer.Tokens.{is_name}
use cairnobs.Query.Lexer.{ident, comma, lparen, rparen, star, is_eof}
use cairnobs.Query.Parser.Post.{
  size, IsState, Post, refuses, bind-Post, weaken-Post, branch-Post, advance_strict-Post,
  expect-Post, not_eof,
}
use cairnobs.Query.Parser.TermsPost.{give-Post, take-Post, then-Post, ident_value}
use cairnobs.Query.Parser.State.{
  Parser, Parse, ◌>>=◌, ◌>>◌, return, errorf, kind_eq, advance, expect, expected_agg_func,
  unknown_agg_func, expected_alias, expected_field,
}
use cairnobs.Query.Parser.Stages.{
  is_valid_agg_func, comma_loop, comma_list, parse_field_ident, parse_agg_field, parse_agg_parens,
  parse_alias_name, parse_agg_alias, parse_agg_call,
}
use cairnobs.Query.Parser.Terms.{spells}
use cairnobs.Query.Parser.WellFormed.{is_optional_name, IsAggCall, IsName}

-- A list read by a comma loop is not empty and holds what the element step gives.
abbrev pub Listed : {A : Type 0} → (A → Type 0) → List A → Type 0
Listed P xs = (xs ≢ []) × All P xs

module _ {A : Type 0} (P : A → Type 0) (element : Parse A)
    (reads : (p : Parser) → IsState p → Post (size p) 1 P (element p)) where
  comma_loop-Post :
      (f : ℕ) (xs : List A) (p : Parser)
      → Listed P xs
      → IsState p
      → size p < f
      → Post (size p) 0 (Listed P) (comma_loop f element xs p)
  unfolding comma_loop is_eof
  comma_loop-Post zero xs p h s enough = absurd (omega arith)
  comma_loop-Post (suc f) xs p h s enough =
      let more : Parse (List A) = (do advance; x ← element; comma_loop f element (xs ++ x ∷ [])) in
      branch-Post p (kind_eq p.cur.kind comma) more (return xs)
        (λ c.
          weaken-Post 0 (more p)
            (bind-Post 1 (advance p) (λ _. do x ← element; comma_loop f element (xs ++ x ∷ []))
              (advance_strict-Post p s (not_eof p.cur.kind comma refl c))
              λ _ q _ s' le.
                bind-Post 0 (element q) (λ x. comma_loop f element (xs ++ x ∷ [])) (reads q s')
                  λ x q' hx s'' le'.
                    comma_loop-Post f (xs ++ x ∷ []) q'
                      (concat-ne-nil x xs, All-concat P xs x h.1 hx) s'' (omega arith))
            (omega arith) (λ _ x. x))
        (λ _. give-Post xs p h s)

  pub comma_list-Post :
      (f : ℕ) (p : Parser)
      → IsState p
      → size p < suc f
      → Post (size p) 1 (Listed P) (comma_list f element p)
  comma_list-Post f p s enough =
      bind-Post 0 (element p) (λ x. comma_loop f element (x ∷ [])) (reads p s)
        λ x q hx s' le. comma_loop-Post f (x ∷ []) q (concat-ne-nil x [], (hx, tt)) s' (omega arith)

-- A step that takes one identifier and returns `f` of its value.
pub ident-Post :
    {A : Type 0} (Q : A → Type 0) (a : A) (p : Parser)
    → IsState p
    → kind_eq p.cur.kind ident ≡ true
    → (is_name p.cur.value ≡ true → Q a)
    → Post (size p) 1 Q ((do advance; return a) p)
unfolding is_eof
ident-Post Q a p s h f =
    take-Post Q a p s (not_eof p.cur.kind ident refl h)
      (f (ident_value p.cur.kind p.cur.value h s.valid_cur))

pub parse_field_ident-Post : (p : Parser) → IsState p → Post (size p) 1 IsName (parse_field_ident p)
unfolding parse_field_ident
parse_field_ident-Post p s =
    branch-Post p (kind_eq p.cur.kind ident) (do advance; return p.cur.value)
      (errorf (expected_field p.cur)) (λ h. ident-Post IsName p.cur.value p s h (λ n. n))
      (λ _. refuses)

abbrev IsOptional : List ℕ → Type 0
IsOptional v = is_optional_name v ≡ true

name-IsOptional : (v : List ℕ) → is_name v ≡ true → IsOptional v
name-IsOptional v h = ground arith

empty-IsOptional : IsOptional []
unfolding is_empty
empty-IsOptional = refl

closed-Post :
    (v : List ℕ) (p : Parser)
    → IsOptional v
    → IsState p
    → Post (size p) 1 IsOptional ((do expect rparen; return v) p)
unfolding is_eof
closed-Post v p h s =
    bind-Post 0 (expect rparen p) (λ _. return v) (expect-Post p rparen s refl)
      λ _ q _ s' _. give-Post v q h s'

parse_agg_field-Post : (p : Parser) → IsState p → Post (size p) 0 IsOptional (parse_agg_field p)
unfolding parse_agg_field is_eof
parse_agg_field-Post p s =
    let close : List ℕ → Parse (List ℕ) = λ v. (do expect rparen; return v) in
    branch-Post p (kind_eq p.cur.kind ident) (do advance; close p.cur.value)
      (if kind_eq p.cur.kind star then (do advance; close []) else close [])
      (λ h.
        let named = name-IsOptional _ (ident_value p.cur.kind p.cur.value h s.valid_cur) in
        weaken-Post 0 ((do advance; close p.cur.value) p)
          (then-Post 1 IsOptional (close p.cur.value) p s (not_eof p.cur.kind ident refl h)
            (λ q s'. closed-Post p.cur.value q named s'))
          (omega arith) (λ _ x. x))
      λ _.
        branch-Post p (kind_eq p.cur.kind star) (do advance; close []) (close [])
          (λ h.
            weaken-Post 0 ((do advance; close []) p)
              (then-Post 1 IsOptional (close []) p s (not_eof p.cur.kind star refl h)
                (λ q s'. closed-Post [] q empty-IsOptional s'))
              (omega arith) (λ _ x. x))
          (λ _.
            weaken-Post 0 (close [] p) (closed-Post [] p empty-IsOptional s) (omega arith)
              (λ _ x. x))

parse_agg_parens-Post : (p : Parser) → IsState p → Post (size p) 0 IsOptional (parse_agg_parens p)
unfolding parse_agg_parens is_eof
parse_agg_parens-Post p s =
    branch-Post p (kind_eq p.cur.kind lparen) (do advance; parse_agg_field) (return [])
      (λ h.
        weaken-Post 0 ((do advance; parse_agg_field) p)
          (then-Post 0 IsOptional parse_agg_field p s (not_eof p.cur.kind lparen refl h)
            parse_agg_field-Post)
          (omega arith) (λ _ x. x))
      (λ _. give-Post [] p empty-IsOptional s)

parse_alias_name-Post : (p : Parser) → IsState p → Post (size p) 1 IsOptional (parse_alias_name p)
unfolding parse_alias_name
parse_alias_name-Post p s =
    branch-Post p (kind_eq p.cur.kind ident) (do advance; return p.cur.value)
      (errorf (expected_alias p.cur))
      (λ h. ident-Post IsOptional p.cur.value p s h (name-IsOptional p.cur.value)) (λ _. refuses)

parse_agg_alias-Post : (p : Parser) → IsState p → Post (size p) 0 IsOptional (parse_agg_alias p)
unfolding parse_agg_alias is_eof
parse_agg_alias-Post p s =
    branch-Post p (kind_eq p.cur.kind ident && spells p.cur.value "as")
      (do advance; parse_alias_name) (return [])
      (λ h.
        weaken-Post 0 ((do advance; parse_alias_name) p)
          (then-Post 1 IsOptional parse_alias_name p s
            (not_eof p.cur.kind ident refl (&&-eq-true _ _ h).0) parse_alias_name-Post)
          (omega arith) (λ _ x. x))
      (λ _. give-Post [] p empty-IsOptional s)

pub parse_agg_call-Post : (p : Parser) → IsState p → Post (size p) 1 IsAggCall (parse_agg_call p)
unfolding parse_agg_call is_eof
parse_agg_call-Post p s =
    let v = p.cur.value in
    let call : Parse AggCall = (do
      field ← parse_agg_parens
      alias ← parse_agg_alias
      return (record { func = v; field = field; alias = alias })) in
    let known : Parse AggCall =
      if not (is_valid_agg_func v) then errorf (unknown_agg_func v) else (do advance; call) in
    branch-Post p (not (kind_eq p.cur.kind ident)) (errorf (expected_agg_func p.cur)) known
      (λ _. refuses)
      λ h.
        branch-Post p (not (is_valid_agg_func v)) (errorf (unknown_agg_func v)) (do advance; call)
          (λ _. refuses)
          λ g. then-Post 0 IsAggCall call p s (not_eof p.cur.kind ident refl (ground arith)) λ q s'.
            bind-Post 0 (parse_agg_parens q)
              (λ field. do
                alias ← parse_agg_alias
                return (record { func = v; field = field; alias = alias }))
              (parse_agg_parens-Post q s')
              λ field q' hf s'' _.
                bind-Post 0 (parse_agg_alias q')
                  (λ alias. return (record { func = v; field = field; alias = alias }))
                  (parse_agg_alias-Post q' s'')
                  λ alias q'' ha s3 _.
                    give-Post (record { func = v; field = field; alias = alias }) q''
                      (ground arith, hf, ha) s3

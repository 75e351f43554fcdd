-- ===== src/Query/Parser/TermsPost.antt =====
-- Each parse step of Parser/Terms ends, takes tokens and builds a well-formed part of the tree.
use cairnobs.Base.{
  text_eq, ℕ, ◌+◌, ◌<◌, ◌^◌, true, false, ◌&&◌, ◌||◌, [], none, some, if◌then◌else◌, Text, ◌≡◌,
  refl, arith, &&-eq-true, Option-cases, inl, inr,
}
use cairnobs.Base.Int.{ℤ, pos, negsuc}
use cairnobs.Query.Ast.{TimeExpr, Term, comparison, time_bound, free_text}
use cairnobs.Query.Lexer.Tokens.{ValidValue, spelling, is_name, is_comparator}
use cairnobs.Query.Lexer.{
  Kind, ident, string, number, eq, neq, gt, gte, lt, lte, colon, minus, plus, is_eof,
}
use cairnobs.Query.Parser.Post.{
  size, IsState, Post, returns, refuses, bind-Post, weaken-Post, branch-Post, Always,
  advance_strict-Post, expect-Post, not_eof, kind_eq-eq,
}
use cairnobs.Query.Parser.State.{
  Parser, Parse, ◌>>=◌, ◌>>◌, return, errorf, kind_eq, advance, expect, expected_comparator,
  expected_value, expected_time_unit, expected_time, invalid_time_number, expected_quoted,
  expected_filter,
}
use cairnobs.Query.Parser.Terms.{
  spells, is_comparator_start, is_valid_time_unit, atoi, parse_comparator, parse_value,
  parse_comparison, parse_unit, parse_offset, parse_time_expr, parse_time_bound, parse_quoted,
  parse_explicit_free_text, parse_term,
}
use cairnobs.Query.Parser.WellFormed.{is_time_expr, is_bound_kind, IsTerm}

pub give-Post :
    {A : Type 0} {Q : A → Type 0} (a : A) (p : Parser)
    → Q a
    → IsState p
    → Post (size p) 0 Q (return a p)
give-Post a p h s = returns h s (omega arith)

-- Take the current token and return `a`.
pub take-Post :
    {A : Type 0} (Q : A → Type 0) (a : A) (p : Parser)
    → IsState p
    → is_eof p.cur.kind ≡ false
    → Q a
    → Post (size p) 1 Q ((do advance; return a) p)
take-Post Q a p s e h =
    bind-Post 0 (advance p) (λ _. return a) (advance_strict-Post p s e)
      (λ _ q _ s' _. give-Post a q h s')

-- Take the current token and go on with `m`.
pub then-Post :
    {A : Type 0} (k : ℕ) (Q : A → Type 0) (m : Parse A) (p : Parser)
    → IsState p
    → is_eof p.cur.kind ≡ false
    → ((q : Parser) → IsState q → Post (size q) k Q (m q))
    → Post (size p) (1 + k) Q ((do advance; m) p)
then-Post k Q m p s e g =
    bind-Post k (advance p) (λ _. m) (advance_strict-Post p s e) (λ _ q _ s' _. g q s')

comparator-not_eof : (k : Kind) → is_comparator_start k ≡ true → is_eof k ≡ false
unfolding is_comparator_start is_eof
comparator-not_eof k h = ground arith

comparator_value :
    (k : Kind) (v : Text) → is_comparator_start k ≡ true → ValidValue k v → is_comparator v ≡ true
unfolding is_comparator_start spelling is_comparator text_eq
comparator_value eq v h x = rw x.0 refl
comparator_value neq v h x = rw x.0 refl
comparator_value gt v h x = rw x.0 refl
comparator_value gte v h x = rw x.0 refl
comparator_value lt v h x = rw x.0 refl
comparator_value lte v h x = rw x.0 refl
comparator_value _ v h x = cc

pub ident_value : (k : Kind) (v : Text) → kind_eq k ident ≡ true → ValidValue k v → is_name v ≡ true
ident_value k v h x = (rw (kind_eq-eq k ident h) at x).1

parse_comparator-Post :
    (p : Parser) → IsState p → Post (size p) 1 (λ op. is_comparator op ≡ true) (parse_comparator p)
unfolding parse_comparator
parse_comparator-Post p s =
    branch-Post p (is_comparator_start p.cur.kind) (do advance; return p.cur.value)
      (errorf (expected_comparator p.cur))
      (λ h.
        take-Post (λ op. is_comparator op ≡ true) p.cur.value p s (comparator-not_eof p.cur.kind h)
          (comparator_value p.cur.kind p.cur.value h s.valid_cur))
      (λ _. refuses)

value-not_eof :
    (k : Kind) → (kind_eq k ident || kind_eq k string || kind_eq k number) ≡ true → is_eof k ≡ false
unfolding kind_eq is_eof
value-not_eof k h = ground arith

parse_value-Post : (p : Parser) → IsState p → Post (size p) 1 Always (parse_value p)
unfolding parse_value
parse_value-Post p s =
    branch-Post p
      (kind_eq p.cur.kind ident || kind_eq p.cur.kind string || kind_eq p.cur.kind number)
      (do advance; return p.cur.value) (errorf (expected_value p.cur))
      (λ h. take-Post Always p.cur.value p s (value-not_eof p.cur.kind h) tt) (λ _. refuses)

parse_comparison-Post :
    (p : Parser)
    → IsState p
    → kind_eq p.cur.kind ident ≡ true
    → Post (size p) 3 IsTerm (parse_comparison p)
unfolding parse_comparison is_eof
parse_comparison-Post p s h =
    then-Post 2 IsTerm
      (do op ← parse_comparator; v ← parse_value; return (comparison p.cur.value op v)) p s
      (not_eof p.cur.kind ident refl h)
      (λ q s'.
        bind-Post 1 (parse_comparator q)
          (λ op. do v ← parse_value; return (comparison p.cur.value op v))
          (parse_comparator-Post q s')
          (λ op q' hop s'' _.
            bind-Post 0 (parse_value q') (λ v. return (comparison p.cur.value op v))
              (parse_value-Post q' s'')
              (λ v q'' _ s3 _.
                give-Post (comparison p.cur.value op v) q''
                  (ident_value p.cur.kind p.cur.value h s.valid_cur, hop) s3)))

pub atoi-lt : (v : Text) {n : ℕ} → atoi v ≡ some n → n < 2 ^ 63
unfolding atoi
atoi-lt v h = ground arith

parse_unit-Post :
    (sign : ℤ) (n : ℕ) (p : Parser)
    → IsState p
    → n < 2 ^ 63
    → Post (size p) 1 (λ e. is_time_expr e ≡ true) (parse_unit sign n p)
unfolding parse_unit is_eof
parse_unit-Post sign n p s fits =
    let e : TimeExpr = record {
      absolute = [];
      is_relative = true;
      relative_sign = sign;
      relative_n = n;
      relative_unit = p.cur.value;
    } in
    branch-Post p (kind_eq p.cur.kind ident && is_valid_time_unit p.cur.value)
      (do advance; return e) (errorf (expected_time_unit n p.cur))
      (λ h.
        take-Post (λ e. is_time_expr e ≡ true) e p s
          (not_eof p.cur.kind ident refl (&&-eq-true _ _ h).0)
          (ground
            (arith, &&-eq-true (kind_eq p.cur.kind ident) (is_valid_time_unit p.cur.value) h)))
      (λ _. refuses)

parse_offset-Post :
    (sign : ℤ) (p : Parser)
    → IsState p
    → Post (size p) 2 (λ e. is_time_expr e ≡ true) (parse_offset sign p)
unfolding parse_offset is_eof
parse_offset-Post sign p s =
    branch-Post p (kind_eq p.cur.kind number)
      (elim (atoi p.cur.value) [
        | none ↦ errorf (invalid_time_number p.cur.value)
        | some n ↦ (do advance; parse_unit sign n)
      ])
      (errorf (expected_time p.cur))
      (λ h. elim (Option-cases (atoi p.cur.value)) [
        | inl e ↦ rw e refuses
        | inr (n, e) ↦ rw e (
            then-Post 1 (λ t. is_time_expr t ≡ true) (parse_unit sign n) p s
              (not_eof p.cur.kind number refl h)
              (λ q s'. parse_unit-Post sign n q s' (atoi-lt p.cur.value e)))
      ])
      (λ _. refuses)

parse_time_expr-Post :
    (p : Parser) → IsState p → Post (size p) 1 (λ e. is_time_expr e ≡ true) (parse_time_expr p)
unfolding parse_time_expr is_eof
parse_time_expr-Post p s =
    let Q : TimeExpr → Type 0 = λ e. is_time_expr e ≡ true in
    let e : TimeExpr = record {
      absolute = p.cur.value;
      is_relative = false;
      relative_sign = pos 0;
      relative_n = 0;
      relative_unit = [];
    } in
    let signed : (z : ℤ) (k : Kind)
        → is_eof k ≡ false
        → kind_eq p.cur.kind k ≡ true
        → Post (size p) 1 Q ((do advance; parse_offset z) p) =
      λ z k f h.
        weaken-Post 1 ((do advance; parse_offset z) p)
          (then-Post 2 Q (parse_offset z) p s (not_eof p.cur.kind k f h) (parse_offset-Post z))
          (omega arith) (λ _ x. x) in
    branch-Post p (kind_eq p.cur.kind string) (do advance; return e)
      (if kind_eq p.cur.kind minus
        then (do advance; parse_offset (negsuc 0))
        else if kind_eq p.cur.kind plus
        then (do advance; parse_offset (pos 1))
        else parse_offset (pos 1))
      (λ h. take-Post Q e p s (not_eof p.cur.kind string refl h) refl)
      λ _.
        branch-Post p (kind_eq p.cur.kind minus) (do advance; parse_offset (negsuc 0))
          (if kind_eq p.cur.kind plus
            then (do advance; parse_offset (pos 1))
            else parse_offset (pos 1))
          (signed (negsuc 0) minus refl)
          λ _.
            branch-Post p (kind_eq p.cur.kind plus) (do advance; parse_offset (pos 1))
              (parse_offset (pos 1)) (signed (pos 1) plus refl)
              λ _.
                weaken-Post 1 (parse_offset (pos 1) p) (parse_offset-Post (pos 1) p s) (omega arith)
                  (λ _ x. x)

parse_time_bound-Post :
    (p : Parser)
    → IsState p
    → kind_eq p.cur.kind ident ≡ true
    → is_bound_kind p.cur.value ≡ true
    → Post (size p) 3 IsTerm (parse_time_bound p)
unfolding parse_time_bound is_eof
parse_time_bound-Post p s h b =
    let k = p.cur.value in
    then-Post 2 IsTerm (do expect eq; e ← parse_time_expr; return (time_bound k e)) p s
      (not_eof p.cur.kind ident refl h)
      λ q s'.
        bind-Post 1 (expect eq q) (λ _. do e ← parse_time_expr; return (time_bound k e))
          (expect-Post q eq s' refl)
          λ _ q' _ s'' _.
            bind-Post 0 (parse_time_expr q') (λ e. return (time_bound k e))
              (parse_time_expr-Post q' s'') λ e q'' w s3 _. give-Post (time_bound k e) q'' (b, w) s3

parse_quoted-Post : (p : Parser) → IsState p → Post (size p) 1 IsTerm (parse_quoted p)
unfolding parse_quoted is_eof
parse_quoted-Post p s =
    branch-Post p (kind_eq p.cur.kind string) (do advance; return (free_text p.cur.value))
      (errorf (expected_quoted p.cur))
      (λ h. take-Post IsTerm (free_text p.cur.value) p s (not_eof p.cur.kind string refl h) tt)
      (λ _. refuses)

parse_explicit_free_text-Post :
    (p : Parser)
    → IsState p
    → kind_eq p.cur.kind ident ≡ true
    → Post (size p) 3 IsTerm (parse_explicit_free_text p)
unfolding parse_explicit_free_text is_eof
parse_explicit_free_text-Post p s h =
    then-Post 2 IsTerm (do expect colon; parse_quoted) p s (not_eof p.cur.kind ident refl h)
      λ q s'.
        bind-Post 1 (expect colon q) (λ _. parse_quoted) (expect-Post q colon s' refl)
          λ _ q' _ s'' _. parse_quoted-Post q' s''

-- A term ends, takes at least one token, and is well formed.
pub parse_term-Post : (p : Parser) → IsState p → Post (size p) 1 IsTerm (parse_term p)
unfolding parse_term is_eof
parse_term-Post p s =
    let word : Parse Term = (do advance; return (free_text p.cur.value)) in
    let compared : Parse Term =
      if is_comparator_start p.next.kind then parse_comparison else word in
    let explicit : Parse Term =
      if spells p.cur.value "message" && kind_eq p.next.kind colon
      then parse_explicit_free_text
      else compared in
    let one : (r : _) → Post (size p) 3 IsTerm r → Post (size p) 1 IsTerm r =
      λ r h. weaken-Post 1 r h (omega arith) (λ _ x. x) in
    branch-Post p (kind_eq p.cur.kind ident)
      (if spells p.cur.value "earliest" || spells p.cur.value "latest"
        then parse_time_bound
        else explicit)
      (if kind_eq p.cur.kind string then word else errorf (expected_filter p.cur))
      (λ h.
        branch-Post p (is_bound_kind p.cur.value) parse_time_bound explicit
          (λ b. one (parse_time_bound p) (parse_time_bound-Post p s h b))
          λ _.
            branch-Post p (spells p.cur.value "message" && kind_eq p.next.kind colon)
              parse_explicit_free_text compared
              (λ _. one (parse_explicit_free_text p) (parse_explicit_free_text-Post p s h))
              λ _.
                branch-Post p (is_comparator_start p.next.kind) parse_comparison word
                  (λ _. one (parse_comparison p) (parse_comparison-Post p s h))
                  λ _.
                    take-Post IsTerm (free_text p.cur.value) p s (not_eof p.cur.kind ident refl h)
                      tt)
      λ _.
        branch-Post p (kind_eq p.cur.kind string) word (errorf (expected_filter p.cur))
          (λ h. take-Post IsTerm (free_text p.cur.value) p s (not_eof p.cur.kind string refl h) tt)
          (λ _. refuses)

-- ===== src/Query/Parser/Post.antt =====
-- Reasoning about parse steps: the tokens that a state still holds, and the postcondition of a step
-- with its rules.
use cairnobs.Base.{
  ℕ, ◌+◌, ◌≤◌, Bool, true, false, ◌==◌, ==_iff, if◌then◌else◌, length, Text, ◌≡◌, refl, sym, ◌∙◌,
  ap, arith,
}
use cairnobs.Query.Lexer
use cairnobs.Query.Lexer.Splits.{length-next}
use cairnobs.Query.Lexer.Tokens.{ValidToken, next-ValidToken}
use cairnobs.Query.Lexer.{
  Kind, eof, illegal, ident, string, number, pipe, eq, neq, gt, gte, lt, lte, colon, comma, lparen,
  rparen, minus, plus, star, is_eof, Token,
}
use cairnobs.Query.Parser.State.{
  Parser, Reason, syntax, Result, ok, err, Parse, bind, kind_code, kind_eq, new_parser, advance,
  expect, errorf, expected_kind,
}

kind_of : ℕ → Kind
kind_of n =
    if n == 0
    then eof
    else if n == 1
    then illegal
    else if n == 2
    then ident
    else if n == 3
    then string
    else if n == 4
    then number
    else if n == 5
    then pipe
    else if n == 6
    then eq
    else if n == 7
    then neq
    else if n == 8
    then gt
    else if n == 9
    then gte
    else if n == 10
    then lt
    else if n == 11
    then lte
    else if n == 12
    then colon
    else if n == 13
    then comma
    else if n == 14
    then lparen
    else if n == 15
    then rparen
    else if n == 16
    then minus
    else if n == 17
    then plus
    else star

kind_of-kind_code : (k : Kind) → kind_of (kind_code k) ≡ k
unfolding kind_of kind_code
kind_of-kind_code eof = refl
kind_of-kind_code _ = refl

pub kind_eq-eq : (a b : Kind) → kind_eq a b ≡ true → a ≡ b
unfolding kind_eq
kind_eq-eq a b h =
    sym (kind_of-kind_code a)
    ∙ ap kind_of ((==_iff (kind_code a) (kind_code b)).0 h)
    ∙ kind_of-kind_code b

-- A token of a kind that is not the end of the text.
pub not_eof : (a b : Kind) → is_eof b ≡ false → kind_eq a b ≡ true → is_eof a ≡ false
not_eof a b e h = rw (kind_eq-eq a b h) e

abbrev pub weight : Token → ℕ
weight t = if is_eof t.kind then 0 else 1

-- An upper bound of the tokens that the parser has not taken.
unfoldable pub size : Parser → ℕ
size p = length p.lex.input + weight p.cur + weight p.next

pub record IsState (p : Parser) : Type 0 where
  pub valid_cur : ValidToken p.cur
  pub valid_next : ValidToken p.next

-- A step from a state of `n` tokens gave a value with `Q` and took at least `k` tokens, or gave
-- a syntax error. It did not run out of fuel.
pub data Post {A : Type 0} (n k : ℕ) (Q : A → Type 0) : Result (A × Parser) → Type 0 where
  returns : {a : A} {q : Parser} → Q a → IsState q → size q + k ≤ n → Post n k Q (ok (a, q))
  refuses : {at : ℕ} {r : Reason} → Post n k Q (err (syntax at r))

module _ {A B : Type 0} {n j : ℕ} (k : ℕ) {Q : A → Type 0} {R : B → Type 0} where
  pub bind-Post :
      (r : Result (A × Parser)) (f : A → Parse B)
      → Post n j Q r
      → ((a : A) (q : Parser) → Q a → IsState q → size q + j ≤ n → Post (size q) k R (f a q))
      → Post n (j + k) R (bind r f)
  bind-Post (ok (a, q)) f (returns h s le) g = widen (f a q) (g a q h s le)
    where
      widen : (r : Result (B × Parser)) → Post (size q) k R r → Post n (j + k) R r
      widen (ok (b, q')) (returns h' s' le') = returns h' s' (omega arith)
      widen (err e) refuses = refuses
  bind-Post (err e) f refuses g = refuses

pub weaken-Post :
    {A : Type 0} {n j : ℕ} (k : ℕ) {Q R : A → Type 0} (r : Result (A × Parser))
    → Post n j Q r
    → k ≤ j
    → ((a : A) → Q a → R a)
    → Post n k R r
weaken-Post k (ok (a, q)) (returns h s le) kj f = returns (f a h) s (omega arith)
weaken-Post k (err e) refuses kj f = refuses

pub branch-Post :
    {A : Type 0} {n k : ℕ} {Q : A → Type 0} (p : Parser) (b : Bool) (x y : Parse A)
    → (b ≡ true → Post n k Q (x p))
    → (b ≡ false → Post n k Q (y p))
    → Post n k Q ((if b then x else y) p)
branch-Post p true x y f g = f refl
branch-Post p false x y f g = g refl

abbrev pub Always : {A : Type 0} → A → Type 0
Always _ = Unit

pub advance-Post : (p : Parser) → IsState p → Post (size p) 0 Always (advance p)
unfolding advance size
advance-Post p s =
    returns tt (record { valid_cur = s.valid_next; valid_next = next-ValidToken p.lex })
      (ground (arith, length-next p.lex))

pub advance_strict-Post :
    (p : Parser) → IsState p → is_eof p.cur.kind ≡ false → Post (size p) 1 Always (advance p)
unfolding advance size
advance_strict-Post p s e =
    returns tt (record { valid_cur = s.valid_next; valid_next = next-ValidToken p.lex })
      (ground (arith, length-next p.lex))

pub expect-Post :
    (p : Parser) (k : Kind) → IsState p → is_eof k ≡ false → Post (size p) 1 Always (expect k p)
unfolding expect
expect-Post p k s e =
    branch-Post p (kind_eq p.cur.kind k) advance (errorf (expected_kind k p.cur))
      (λ h. advance_strict-Post p s (not_eof p.cur.kind k e h)) (λ _. refuses)

pub new_parser-IsState : (s : Text) → IsState (new_parser s)
unfolding new_parser
new_parser-IsState s =
    let first = Lexer.next (Lexer.new s) in
    record { valid_cur = next-ValidToken (Lexer.new s); valid_next = next-ValidToken first.1 }

-- A text holds at most as many tokens as characters.
pub size-new_parser : (s : Text) → size (new_parser s) ≤ length s
unfolding new_parser size Lexer.new
size-new_parser s =
    let l : Lexer.Lexer = Lexer.new s in ground (arith, length-next l, length-next (Lexer.next l).1)

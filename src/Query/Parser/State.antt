-- ===== src/Query/Parser/State.antt =====
-- The parser's state and its steps on tokens (parser.go: `parser`, `newParser`, `advance`,
-- `expect`, `errorf`). A parse step takes the state and returns its value with the new state, or
-- an error; the message of an error is its format with the arguments.
use cairnobs.Base.{ℕ, Bool, ◌==◌, if◌then◌else◌, Text}
use cairnobs.Query.Lexer
use cairnobs.Query.Lexer.{
  Kind, eof, illegal, ident, string, number, pipe, eq, neq, gt, gte, lt, lte, colon, comma, lparen,
  rparen, minus, plus, star, Token, Lexer,
}

pub record Parser : Type 0 where
  pub lex : Lexer
  pub cur : Token
  pub next : Token

pub data Reason : Type 0 where
  unexpected_after_query : Token → Reason
  expected_filter : Token → Reason
  expected_comparator : Token → Reason
  expected_value : Token → Reason
  expected_time : Token → Reason
  invalid_time_number : Text → Reason
  expected_time_unit : ℕ → Token → Reason
  expected_quoted : Token → Reason
  expected_stage : Token → Reason
  unknown_stage : Text → Reason
  expected_agg_func : Token → Reason
  unknown_agg_func : Text → Reason
  expected_alias : Token → Reason
  expected_sort_field : Token → Reason
  expected_field : Token → Reason
  invalid_number : Text → Reason
  expected_kind : Kind → Token → Reason

-- `out_of_fuel` is no error of the program: the loops of the model take fuel.
pub data Error : Type 0 where
  syntax : (position : ℕ) → Reason → Error
  out_of_fuel : Error

pub data Result (A : Type 0) : Type 0 where
  ok : A → Result A
  err : Error → Result A

abbrev pub Parse : Type 0 → Type 0
Parse A = Parser → Result (A × Parser)

abbrev pub bind : {A B : Type 0} → Result (A × Parser) → (A → Parse B) → Result (B × Parser)
bind (ok (a, q)) f = f a q
bind (err e) f = err e

infixl 5 ◌>>=◌ ◌>>◌
abbrev pub ◌>>=◌ : {A B : Type 0} → Parse A → (A → Parse B) → Parse B
◌>>=◌ m f = λ p. bind (m p) f

abbrev pub ◌>>◌ : {B : Type 0} → Parse (Unit {0}) → Parse B → Parse B
m >> k = m >>= λ _. k

abbrev pub return : {A : Type 0} → A → Parse A
return a = λ p. ok (a, p)

-- `p.errorf`
abbrev pub errorf : {A : Type 0} → Reason → Parse A
errorf r = λ p. err (syntax p.cur.pos r)

-- The place of a kind in Go's iota.
unfoldable pub kind_code : Kind → ℕ
kind_code eof = 0
kind_code illegal = 1
kind_code ident = 2
kind_code string = 3
kind_code number = 4
kind_code pipe = 5
kind_code eq = 6
kind_code neq = 7
kind_code gt = 8
kind_code gte = 9
kind_code lt = 10
kind_code lte = 11
kind_code colon = 12
kind_code comma = 13
kind_code lparen = 14
kind_code rparen = 15
kind_code minus = 16
kind_code plus = 17
kind_code star = 18

unfoldable pub kind_eq : Kind → Kind → Bool
unfolding kind_code
kind_eq a b = kind_code a == kind_code b

unfoldable pub new_parser : Text → Parser
new_parser s =
    let (first, l) = Lexer.next (Lexer.new s) in
    let (second, l') = Lexer.next l in record { lex = l'; cur = first; next = second }

unfoldable pub advance : Parse (Unit {0})
advance p = let (t, l) = Lexer.next p.lex in ok (tt, record { lex = l; cur = p.next; next = t })

unfoldable pub expect : Kind → Parse (Unit {0})
unfolding kind_eq advance
expect k p = (if kind_eq p.cur.kind k then advance else errorf (expected_kind k p.cur)) p

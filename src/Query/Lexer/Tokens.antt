-- ===== src/Query/Lexer/Tokens.antt =====
-- What the kind of a token of lexer.go says of its value.
use cairnobs.Base.{
  ℕ, ◌+◌, Bool, true, false, ◌&&◌, ◌||◌, [], ◌∷◌, ◌++◌, ◌==◌, if◌then◌else◌, Text, text_eq, codes,
  take_while, all, all-take_while, ◌≡◌, refl, ap, ==_iff, leb, Option, none, some, arith,
  Bool-cases, inl, inr,
}
use cairnobs.Query.Lexer.{
  Kind, illegal, ident, pipe, eq, neq, gt, gte, lt, lte, colon, comma, lparen, rparen, minus, plus,
  star, Token, Lexer, is_digit, is_ident_part, is_ident_start, make, peek, tail_of, string_loop,
  lex_number, lex_ident, lex_char, next_at, next, skip_whitespace,
}

-- The six comparators of the language.
unfoldable pub is_comparator : Text → Bool
is_comparator op =
    text_eq op (codes "=")
    || text_eq op (codes "!=")
    || text_eq op (codes ">")
    || text_eq op (codes ">=")
    || text_eq op (codes "<")
    || text_eq op (codes "<=")

-- The characters of names: A to Z, a to z and `_`, and behind the first also 0 to 9, `.` and `-`.
unfoldable pub begins_name : ℕ → Bool
begins_name c = (leb 65 c && leb c 90) || (leb 97 c && leb c 122) || c == 95

unfoldable pub continues_name : ℕ → Bool
unfolding begins_name
continues_name c = begins_name c || (leb 48 c && leb c 57) || c == 46 || c == 45

unfoldable pub is_name : Text → Bool
is_name [] = false
is_name (c ∷ cs) = begins_name c && all continues_name cs

-- The one text that a token of the kind stands for, where there is one.
unfoldable pub spelling : Kind → Option Text
spelling pipe = some (codes "|")
spelling eq = some (codes "=")
spelling neq = some (codes "!=")
spelling gt = some (codes ">")
spelling gte = some (codes ">=")
spelling lt = some (codes "<")
spelling lte = some (codes "<=")
spelling colon = some (codes ":")
spelling comma = some (codes ",")
spelling lparen = some (codes "(")
spelling rparen = some (codes ")")
spelling minus = some (codes "-")
spelling plus = some (codes "+")
spelling star = some (codes "*")
spelling _ = none

abbrev pub Spells : Option Text → Text → Type 0
Spells none v = Unit
Spells (some s) v = v ≡ s

abbrev pub Named : Kind → Text → Type 0
Named ident v = is_name v ≡ true
Named _ v = Unit

abbrev pub ValidValue : Kind → Text → Type 0
ValidValue k v = Spells (spelling k) v × Named k v

abbrev pub ValidToken : Token → Type 0
ValidToken t = ValidValue t.kind t.value

record Valid (r : Token × Lexer) : Type 0 where
  valid : ValidToken r.0

branch-Valid :
    (b : Bool) (x y : Token × Lexer)
    → (b ≡ true → Valid x)
    → (b ≡ false → Valid y)
    → Valid (if b then x else y)
branch-Valid true x y f g = f refl
branch-Valid false x y f g = g refl

string_loop-Valid : (start n : ℕ) (sb s : Text) → Valid (string_loop start n sb s)
unfolding string_loop spelling
string_loop-Valid start n sb [] = record { valid = (tt, tt) }
string_loop-Valid start n sb (c ∷ []) = elim (Bool-cases (c == b'"')) [
  | inl e ↦ rw e (record { valid = (tt, tt) })
  | inr e ↦ rw e (record { valid = (tt, tt) })
]
string_loop-Valid start n sb (c ∷ d ∷ cs) = elim (Bool-cases (c == b'"')) [
  | inl e ↦ rw e (record { valid = (tt, tt) })
  | inr e ↦ rw e (elim (Bool-cases (c == b'\\')) [
    | inl e' ↦ rw e' (string_loop-Valid start (n + 2) (sb ++ d ∷ []) cs)
    | inr e' ↦ rw e' (string_loop-Valid start (n + 1) (sb ++ c ∷ []) (d ∷ cs))
  ])
]

part-continues_name : (c : ℕ) → is_ident_part c ≡ true → continues_name c ≡ true
unfolding is_ident_part is_ident_start is_digit continues_name begins_name
part-continues_name c h = ground (arith, h)

start-begins_name : (c : ℕ) → is_ident_start c ≡ true → begins_name c ≡ true
unfolding is_ident_start begins_name
start-begins_name c h = ground (arith, h)

all-continues_name : (s : Text) → all is_ident_part s ≡ true → all continues_name s ≡ true
unfolding all
all-continues_name [] h = refl
all-continues_name (c ∷ s) h =
    ground (arith, h, all-continues_name s (ground (arith, h)), part-continues_name c)

name_of_ident :
    (c : ℕ) (cs : Text)
    → is_ident_start c ≡ true
    → all is_ident_part cs ≡ true
    → is_name (c ∷ cs) ≡ true
unfolding is_name
name_of_ident c cs h k = ground (arith, start-begins_name c h, all-continues_name cs k)

lex_ident-Valid :
    (c : ℕ) (cs : Text) (start : ℕ) → is_ident_start c ≡ true → Valid (lex_ident (c ∷ cs) start)
unfolding lex_ident take_while is_ident_part spelling
lex_ident-Valid c cs start h = record {
  valid = (
    tt,
    rw h (name_of_ident c (take_while is_ident_part cs) h (all-take_while is_ident_part cs)),
  );
}

one-Valid :
    (c : ℕ) (cs : Text) (start : ℕ) (k : Kind)
    → ValidValue k (c ∷ [])
    → Valid (make k (c ∷ []) start cs 1)
one-Valid c cs start k v = record { valid = v }

two-Valid :
    (c : ℕ) (cs : Text) (start : ℕ) (k : Kind)
    → ValidValue k (c ∷ b'=' ∷ [])
    → Valid (make k (c ∷ b'=' ∷ []) start (tail_of cs) 2)
two-Valid c cs start k v = record { valid = v }

-- A character alone, and one before an equals sign.
alone : (c d : ℕ) → (c == d) ≡ true → c ∷ [] ≡ d ∷ []
alone c d h = ap (λ (x : ℕ). x ∷ []) ((==_iff c d).0 h)

before_eq : (c d : ℕ) (b : Bool) → (c == d && b) ≡ true → c ∷ b'=' ∷ [] ≡ d ∷ b'=' ∷ []
before_eq c d b h = ap (λ (x : ℕ). x ∷ b'=' ∷ []) ((==_iff c d).0 (ground (arith, h)))

lex_char-Valid : (c : ℕ) (cs : Text) (start : ℕ) → Valid (lex_char c cs start)
unfolding lex_char lex_number spelling
lex_char-Valid c cs start =
    branch-Valid (c == b'|') _ _ (λ h. one-Valid c cs start pipe (alone c b'|' h, tt))
      λ _.
        branch-Valid (c == b'=') _ _ (λ h. one-Valid c cs start eq (alone c b'=' h, tt))
          λ _.
            branch-Valid (c == b'!' && peek cs == b'=') _ _
              (λ h. two-Valid c cs start neq (before_eq c b'!' (peek cs == b'=') h, tt))
              λ _.
                branch-Valid (c == b'>' && peek cs == b'=') _ _
                  (λ h. two-Valid c cs start gte (before_eq c b'>' (peek cs == b'=') h, tt))
                  λ _.
                    branch-Valid (c == b'>') _ _ (λ h. one-Valid c cs start gt (alone c b'>' h, tt))
                      λ _.
                        branch-Valid (c == b'<' && peek cs == b'=') _ _
                          (λ h. two-Valid c cs start lte (before_eq c b'<' (peek cs == b'=') h, tt))
                          λ _.
                            branch-Valid (c == b'<') _ _
                              (λ h. one-Valid c cs start lt (alone c b'<' h, tt))
                              λ _.
                                branch-Valid (c == b':') _ _
                                  (λ h. one-Valid c cs start colon (alone c b':' h, tt))
                                  λ _.
                                    branch-Valid (c == b',') _ _
                                      (λ h. one-Valid c cs start comma (alone c b',' h, tt))
                                      λ _.
                                        branch-Valid (c == b'(') _ _
                                          (λ h. one-Valid c cs start lparen (alone c b'(' h, tt))
                                          λ _.
                                            branch-Valid (c == b')') _ _
                                              (λ h.
                                                one-Valid c cs start rparen (alone c b')' h, tt))
                                              λ _.
                                                branch-Valid (c == b'-') _ _
                                                  (λ h.
                                                    one-Valid c cs start minus (alone c b'-' h, tt))
                                                  λ _.
                                                    branch-Valid (c == b'+') _ _
                                                      (λ h.
                                                        one-Valid c cs start plus
                                                          (alone c b'+' h, tt))
                                                      λ _.
                                                        branch-Valid (c == b'*') _ _
                                                          (λ h.
                                                            one-Valid c cs start star
                                                            (alone c b'*' h, tt))
                                                          λ _.
                                                            branch-Valid (c == b'"') _ _
                                                            (λ _. string_loop-Valid start 1 [] cs)
                                                            λ _.
                                                            branch-Valid (is_digit c) _ _
                                                            (λ _. record { valid = (tt, tt) })
                                                            λ _.
                                                            branch-Valid (is_ident_start c) _ _
                                                            (λ h. lex_ident-Valid c cs start h)
                                                            λ _.
                                                            one-Valid c cs start illegal (tt, tt)

next_at-Valid : (s : Text) (start : ℕ) → Valid (next_at s start)
unfolding next_at spelling
next_at-Valid [] start = record { valid = (tt, tt) }
next_at-Valid (c ∷ cs) start = lex_char-Valid c cs start

-- Of every token that `Next` returns the kind fits the value: an operator or a bracket has its one
-- spelling, and an identifier begins with a letter A to Z or a to z or an underscore and goes on with
-- these, digits, dots and hyphens.
pub next-ValidToken : (l : Lexer) → ValidToken (next l).0
unfolding next
next-ValidToken l = (next_at-Valid (skip_whitespace l).input (skip_whitespace l).pos).valid

-- ===== src/Query/Lexer.antt =====
-- The lexer (api/internal/querylang/lexer/lexer.go). The field `input` of Go's Lexer never
-- changes; here `input` is its part from `pos` on, so that `l.input[l.pos]` is the head.
pub mod Splits
pub mod Tokens
use cairnobs.Base.{
  ℕ, suc, ◌+◌, Bool, true, false, ◌&&◌, ◌||◌, List, [], ◌∷◌, ◌++◌, ◌==◌, if◌then◌else◌, leb, Text,
  length, take_while, drop_while,
}

-- In the order of Go's iota.
pub data Kind : Type 0 where
  eof illegal ident string number pipe eq neq gt gte lt lte colon comma lparen : Kind
  rparen minus plus star : Kind

unfoldable pub is_eof : Kind → Bool
is_eof eof = true
is_eof _ = false

pub record Token : Type 0 where
  pub kind : Kind
  pub value : Text
  pub pos : ℕ

pub record Lexer : Type 0 where
  pub input : Text
  pub pos : ℕ

unfoldable pub new : Text → Lexer
new s = record { input = s; pos = 0 }

unfoldable pub is_digit : ℕ → Bool
is_digit c = leb b'0' c && leb c b'9'

unfoldable pub is_ident_start : ℕ → Bool
is_ident_start c = c == b'_' || (leb b'a' c && leb c b'z') || (leb b'A' c && leb c b'Z')

unfoldable pub is_ident_part : ℕ → Bool
unfolding is_ident_start is_digit
is_ident_part c = is_ident_start c || is_digit c || c == b'.' || c == b'_' || c == b'-'

unfoldable pub is_blank : ℕ → Bool
is_blank c = c == b' ' || c == b'\t' || c == b'\n' || c == b'\r'

unfoldable pub skip_whitespace : Lexer → Lexer
skip_whitespace l = record {
  input = drop_while is_blank l.input;
  pos = l.pos + length (take_while is_blank l.input);
}

-- `l.peek(1)`, on what stands behind the current character.
abbrev pub peek : Text → ℕ
peek [] = 0
peek (c ∷ _) = c

abbrev make : Kind → Text → ℕ → Text → ℕ → Token × Lexer
make k v start rest n =
    (record { kind = k; value = v; pos = start }, record { input = rest; pos = start + n })

abbrev tail_of : Text → Text
tail_of [] = []
tail_of (_ ∷ cs) = cs

-- The loop of `lexString`, behind the opening quote; `n` characters of the token are read.
unfoldable pub string_loop : ℕ → ℕ → Text → Text → Token × Lexer
string_loop start n sb [] = make illegal sb start [] n
string_loop start n sb (c ∷ []) =
    if c == b'"'
    then make string sb start [] (n + 1)
    else make illegal (sb ++ c ∷ []) start [] (n + 1)
string_loop start n sb (c ∷ d ∷ cs) =
    let escaped = string_loop start (n + 2) (sb ++ d ∷ []) cs in
    let plain = string_loop start (n + 1) (sb ++ c ∷ []) (d ∷ cs) in
    if c == b'"'
    then make string sb start (d ∷ cs) (n + 1)
    else if c == b'\\'
    then escaped
    else plain

-- The optional fraction: a dot counts only with a digit behind it.
unfoldable pub fraction : Text → Text
fraction (c ∷ d ∷ cs) = if c == b'.' && is_digit d then c ∷ take_while is_digit (d ∷ cs) else []
fraction _ = []

unfoldable pub after_fraction : Text → Text
after_fraction (c ∷ d ∷ cs) =
    if c == b'.' && is_digit d then drop_while is_digit (d ∷ cs) else c ∷ d ∷ cs
after_fraction s = s

unfoldable pub lex_number : Text → ℕ → Token × Lexer
lex_number s start =
    let whole = take_while is_digit s in
    let rest = drop_while is_digit s in
    let value = whole ++ fraction rest in
    make number value start (after_fraction rest) (length value)

unfoldable pub lex_ident : Text → ℕ → Token × Lexer
lex_ident s start =
    let value = take_while is_ident_part s in
    make ident value start (drop_while is_ident_part s) (length value)

-- The `switch` of `Next`, at the character `c` with `cs` behind it.
unfoldable pub lex_char : ℕ → Text → ℕ → Token × Lexer
lex_char c cs start =
    let one = λ (k : Kind). make k (c ∷ []) start cs 1 in
    let two = λ (k : Kind). make k (c ∷ b'=' ∷ []) start (tail_of cs) 2 in
    let followed = peek cs == b'=' in
    if c == b'|'
    then one pipe
    else if c == b'='
    then one eq
    else if c == b'!' && followed
    then two neq
    else if c == b'>' && followed
    then two gte
    else if c == b'>'
    then one gt
    else if c == b'<' && followed
    then two lte
    else if c == b'<'
    then one lt
    else if c == b':'
    then one colon
    else if c == b','
    then one comma
    else if c == b'('
    then one lparen
    else if c == b')'
    then one rparen
    else if c == b'-'
    then one minus
    else if c == b'+'
    then one plus
    else if c == b'*'
    then one star
    else if c == b'"'
    then string_loop start 1 [] cs
    else if is_digit c
    then lex_number (c ∷ cs) start
    else if is_ident_start c
    then lex_ident (c ∷ cs) start
    else one illegal

unfoldable pub next_at : Text → ℕ → Token × Lexer
next_at [] pos = (record { kind = eof; value = []; pos = pos }, record { input = []; pos = pos })
next_at (c ∷ cs) pos = lex_char c cs pos

unfoldable pub next : Lexer → Token × Lexer
next l = let m = skip_whitespace l in next_at m.input m.pos

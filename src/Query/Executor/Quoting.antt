-- ===== src/Query/Executor/Quoting.antt =====
-- The quoting functions of sql.go: what they write is one quoted piece, whatever the text holds,
-- and a literal reads back as the text.
use cairnobs.Base.{
  ℕ, Bool, true, false, ◌||◌, [], ◌∷◌, ◌++◌, map, Option, none, some, ◌==◌, if◌then◌else◌,
  take_while, drop_while, take_while-append-drop_while, all, all-take_while, all-append, is_empty,
  Text, codes, text_eq, text_eq_iff, to_upper, ◌≡◌, refl, arith, Bool-cases, inl, inr,
}
use cairnobs.Query.Executor.Scanner.{
  outside, after_dash, in_string, in_ident, is_plain, step, scan, IsClosed, IsClosed-append,
  plain-IsClosed,
}
use cairnobs.Query.Executor.Sql.{
  double_ticks, quote_ident, escape_literal, quote_literal, is_top_level, column_expr, ends_number,
  is_unsigned_literal, is_numeric_literal,
}
use cairnobs.Query.Lexer.Tokens.{is_name, is_comparator, begins_name, continues_name}
use cairnobs.Query.Lexer.{is_digit}
use cairnobs.Query.Parser.Stages.{is_valid_agg_func}

abbrev push : ℕ → Option (Text × Text) → Option (Text × Text)
push x none = none
push x (some (t, rest)) = some (x ∷ t, rest)

-- Where the reader of a string literal is: in the text, behind a backslash, or behind a quote.
pub data Reading : Type 0 where
  in_text behind_backslash behind_quote : Reading

-- Read a string literal behind its opening quote, as ClickHouse does: the text that it stands for
-- and what is behind the closing quote. A quote is written with a backslash or twice, and a
-- backslash with a backslash; the other escapes, which `escapeLiteral` does not write, are left out.
unfoldable pub read_literal : Reading → Text → Option (Text × Text)
read_literal in_text [] = none
read_literal behind_backslash [] = none
read_literal behind_quote [] = some ([], [])
read_literal in_text (c ∷ cs) =
    let closing = read_literal behind_quote cs in
    let escaped = read_literal behind_backslash cs in
    let plain = push c (read_literal in_text cs) in
    if c == b'\'' then closing else if c == b'\\' then escaped else plain
read_literal behind_backslash (c ∷ cs) =
    let rest = push c (read_literal in_text cs) in if c == b'\'' || c == b'\\' then rest else none
read_literal behind_quote (c ∷ cs) =
    let doubled = push c (read_literal in_text cs) in
    if c == b'\'' then doubled else some ([], c ∷ cs)

abbrev pub begins_with_quote : Text → Bool
begins_with_quote [] = false
begins_with_quote (c ∷ cs) = c == b'\''

closed_literal :
    (rest : Text)
    → begins_with_quote rest ≡ false
    → read_literal behind_quote rest ≡ some ([], rest)
unfolding read_literal
closed_literal [] h = refl
closed_literal (c ∷ rest) h = rw h refl

plain_read :
    (c : ℕ) (cs : Text)
    → (c == b'\\') ≡ false
    → (c == b'\'') ≡ false
    → read_literal in_text (c ∷ cs) ≡ push c (read_literal in_text cs)
unfolding read_literal
plain_read c cs e f = rw (f, e) refl

plain_escape :
    (c : ℕ) (cs : Text)
    → (c == b'\\') ≡ false
    → (c == b'\'') ≡ false
    → escape_literal (c ∷ cs) ≡ c ∷ escape_literal cs
unfolding escape_literal
plain_escape c cs e f = rw (e, f) refl

-- A literal before anything but another quote reads back as exactly the text that was quoted: no
-- character of the text can end it.
pub read_literal-escape_literal :
    (s rest : Text)
    → begins_with_quote rest ≡ false
    → read_literal in_text (escape_literal s ++ (b'\'' ∷ rest)) ≡ some (s, rest)
unfolding read_literal escape_literal
read_literal-escape_literal [] rest h = ground (arith, closed_literal rest h)
read_literal-escape_literal (c ∷ s) rest h = elim (Bool-cases (c == b'\\')) [
  | inl e ↦ rw e (rw (read_literal-escape_literal s rest h) (ground (arith, e)))
  | inr e ↦ elim (Bool-cases (c == b'\'')) [
    | inl f ↦ rw (e, f) (rw (read_literal-escape_literal s rest h) (ground (arith, f)))
    | inr f ↦ rw (plain_escape c s e f) (
        rw (plain_read c (escape_literal s ++ b'\'' ∷ rest) e f)
          (rw (read_literal-escape_literal s rest h) refl))
  ]
]

escape_literal-scan :
    (s rest : Text) → scan in_string (escape_literal s ++ rest) ≡ scan in_string rest
unfolding scan step escape_literal
escape_literal-scan [] rest = refl
escape_literal-scan (c ∷ s) rest = ground (arith, escape_literal-scan s rest)

-- A string literal is closed, whatever text it quotes.
pub quote_literal-IsClosed : (s : Text) → IsClosed (quote_literal s)
unfolding quote_literal scan step
quote_literal-IsClosed s = record { scanned = escape_literal-scan s (b'\'' ∷ []) }

-- The characters of names need no quoting.
part_is_no_mark :
    (c : ℕ) → continues_name c ≡ true → (c == b'\'' || c == b'`' || c == b'\\') ≡ false
unfolding continues_name begins_name
part_is_no_mark c h = ground arith

double_ticks-scan :
    (s rest : Text)
    → all continues_name s ≡ true
    → scan in_ident (double_ticks s ++ rest) ≡ scan in_ident rest
unfolding scan step double_ticks all
double_ticks-scan [] rest h = refl
double_ticks-scan (c ∷ s) rest h = ground (arith, double_ticks-scan s rest, part_is_no_mark c)

name_parts : (v : Text) → is_name v ≡ true → all continues_name v ≡ true
unfolding is_name all continues_name
name_parts [] h = cc
name_parts (c ∷ cs) h = ground arith

pub quote_ident-IsClosed : (v : Text) → is_name v ≡ true → IsClosed (quote_ident v)
unfolding quote_ident scan step
quote_ident-IsClosed v h = record { scanned = double_ticks-scan v (b'`' ∷ []) (name_parts v h) }

pub column_expr-IsClosed : (f : Text) → is_name f ≡ true → IsClosed (column_expr f)
unfolding column_expr scan step is_plain
column_expr-IsClosed f h = elim (Bool-cases (is_top_level f)) [
  | inl e ↦ rw e (quote_ident-IsClosed f h)
  | inr e ↦ rw e (
      IsClosed-append (codes "attributes[") _ (record { scanned = refl })
        (IsClosed-append (quote_literal f) (codes "]") (quote_literal-IsClosed f)
          (record { scanned = refl })))
]

spelled-IsClosed : (v g : Text) → IsClosed g → text_eq v g ≡ true → IsClosed v
spelled-IsClosed v g h e = rw ((text_eq_iff v g).0 e) h

pub comparator-IsClosed : (op : Text) → is_comparator op ≡ true → IsClosed op
unfolding is_comparator scan step is_plain
comparator-IsClosed op h = ground (
  arith,
  spelled-IsClosed op (codes "=") (record { scanned = refl }),
  spelled-IsClosed op (codes "!=") (record { scanned = refl }),
  spelled-IsClosed op (codes ">") (record { scanned = refl }),
  spelled-IsClosed op (codes ">=") (record { scanned = refl }),
  spelled-IsClosed op (codes "<") (record { scanned = refl }),
  spelled-IsClosed op (codes "<=") (record { scanned = refl }),
)

abbrev IsUpperClosed : Text → Type 0
IsUpperClosed v = IsClosed (map to_upper v)

spelled-IsUpperClosed : (v g : Text) → IsUpperClosed g → text_eq v g ≡ true → IsUpperClosed v
spelled-IsUpperClosed v g h e = rw ((text_eq_iff v g).0 e) h

pub agg_func-IsUpperClosed : (f : Text) → is_valid_agg_func f ≡ true → IsUpperClosed f
unfolding is_valid_agg_func scan step is_plain to_upper
agg_func-IsUpperClosed f h = ground (
  arith,
  spelled-IsUpperClosed f (codes "count") (record { scanned = refl }),
  spelled-IsUpperClosed f (codes "sum") (record { scanned = refl }),
  spelled-IsUpperClosed f (codes "avg") (record { scanned = refl }),
  spelled-IsUpperClosed f (codes "min") (record { scanned = refl }),
  spelled-IsUpperClosed f (codes "max") (record { scanned = refl }),
)

digit_is_plain : (c : ℕ) → is_digit c ≡ true → is_plain c ≡ true
unfolding is_digit is_plain
digit_is_plain c h = ground arith

digits_plain : (s : Text) → all is_digit s ≡ true → all is_plain s ≡ true
unfolding all
digits_plain [] h = refl
digits_plain (c ∷ s) h = ground (arith, digits_plain s, digit_is_plain c)

ends_number-plain : (s : Text) → ends_number s ≡ true → all is_plain s ≡ true
unfolding ends_number all is_plain
ends_number-plain [] h = refl
ends_number-plain (c ∷ s) h = ground (arith, digits_plain s)

unsigned_plain : (s : Text) → is_unsigned_literal s ≡ true → all is_plain s ≡ true
unfolding is_unsigned_literal
unsigned_plain s h = rw (← take_while-append-drop_while is_digit s) (
    rw (all-append is_plain (take_while is_digit s) (drop_while is_digit s)) (
      ground (
        arith,
        digits_plain (take_while is_digit s) (all-take_while is_digit s),
        ends_number-plain (drop_while is_digit s),
      )))

-- A number behind its sign begins with a digit.
signed-scan : (s : Text) → is_unsigned_literal s ≡ true → scan after_dash s ≡ some outside
unfolding is_unsigned_literal take_while is_empty
signed-scan [] h = cc
signed-scan (c ∷ s) h =
    let plain = unsigned_plain (c ∷ s) (unfold is_unsigned_literal take_while is_empty in h) in
    let tail = plain-IsClosed s (unfold all in ground arith) in
    unfold scan step is_digit in ground (arith, tail.scanned)

-- A number may stand unquoted.
pub numeric-IsClosed : (v : Text) → is_numeric_literal v ≡ true → IsClosed v
unfolding is_numeric_literal
numeric-IsClosed [] h = cc
numeric-IsClosed (c ∷ cs) h = elim (Bool-cases (c == b'-')) [
  | inl e ↦ record { scanned = unfold scan step in ground (arith, signed-scan cs) }
  | inr e ↦ plain-IsClosed (c ∷ cs) (ground (arith, unsigned_plain (c ∷ cs)))
]

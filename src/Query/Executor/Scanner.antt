-- ===== src/Query/Executor/Scanner.antt =====
-- How ClickHouse tells quoted text from the rest of a statement: a string literal stands in single
-- quotes and a quoted identifier in backticks, and in both a backslash takes the next character
-- with it. Outside quotes the scanner lets pass only what a single SELECT without comments needs.
-- It is an independent description, by which the statements of sql.go are judged.
use cairnobs.Base.{
  ℕ, Bool, true, false, ◌&&◌, ◌||◌, List, [], ◌∷◌, ◌++◌, Option, none, some, ◌==◌, leb,
  if◌then◌else◌, all, Text, join, All, ◌≡◌, refl, ◌∙◌, arith, Option-cases, inl, inr,
}

pub data Mode : Type 0 where
  outside after_dash in_string string_escape in_ident ident_escape : Mode

-- Letters, digits, blanks, and the punctuation of a SELECT: no semicolon, hash or slash, so that
-- neither a second statement nor a comment can begin.
unfoldable pub is_plain : ℕ → Bool
is_plain c =
    (leb b'a' c && leb c b'z')
    || (leb b'A' c && leb c b'Z')
    || (leb b'0' c && leb c b'9')
    || c == b' '
    || c == b','
    || c == b'('
    || c == b')'
    || c == b'['
    || c == b']'
    || c == b'*'
    || c == b'='
    || c == b'<'
    || c == b'>'
    || c == b'!'
    || c == b'.'
    || c == b'_'

-- `none`: the text leaves the language of such statements. A dash is let pass only as the sign
-- of a number, since two of them begin a comment.
unfoldable pub step : Mode → ℕ → Option Mode
step outside c =
    if c == b'\''
    then some in_string
    else if c == b'`'
    then some in_ident
    else if c == b'-'
    then some after_dash
    else if is_plain c
    then some outside
    else none
step after_dash c = if leb b'0' c && leb c b'9' then some outside else none
step in_string c =
    if c == b'\\' then some string_escape else if c == b'\'' then some outside else some in_string
step string_escape c = some in_string
step in_ident c =
    if c == b'\\' then some ident_escape else if c == b'`' then some outside else some in_ident
step ident_escape c = some in_ident

unfoldable pub scan : Mode → Text → Option Mode
scan m [] = some m
scan m (c ∷ cs) = elim (step m c) [ none ↦ none | some m' ↦ scan m' cs ]

-- The text begins and ends outside quotes, and keeps to the language in between.
pub record IsClosed (t : Text) : Type 0 where
  pub scanned : scan outside t ≡ some outside

pub scan-append :
    (m : Mode) (a b : Text) {m' : Mode} → scan m a ≡ some m' → scan m (a ++ b) ≡ scan m' b
unfolding scan
scan-append m [] b h = ground arith
scan-append m (c ∷ a) b h = elim (Option-cases (step m c)) [
  | inl e ↦ absurd (ground arith)
  | inr (n, e) ↦ rw (e, scan) (scan-append n a b (rw (e, scan) at h))
]

pub IsClosed-append : (a b : Text) → IsClosed a → IsClosed b → IsClosed (a ++ b)
IsClosed-append a b h k = record { scanned = scan-append outside a b h.scanned ∙ k.scanned }

pub IsClosed-empty : IsClosed []
unfolding scan
IsClosed-empty = record { scanned = refl }

pub IsClosed-join :
    (sep : Text) (xs : List Text) → IsClosed sep → All IsClosed xs → IsClosed (join sep xs)
unfolding join
IsClosed-join sep [] s h = IsClosed-empty
IsClosed-join sep (x ∷ []) s h = h.0
IsClosed-join sep (x ∷ y ∷ ys) s h =
    IsClosed-append x _ h.0 (IsClosed-append sep _ s (IsClosed-join sep (y ∷ ys) s h.1))

plain_is_no_mark : (c : ℕ) → is_plain c ≡ true → (c == b'\'' || c == b'`' || c == b'-') ≡ false
unfolding is_plain
plain_is_no_mark c h = ground arith

plain-scan : (t : Text) → all is_plain t ≡ true → scan outside t ≡ some outside
unfolding scan step all
plain-scan [] h = refl
plain-scan (c ∷ t) h = ground (arith, plain-scan t, plain_is_no_mark c)

pub plain-IsClosed : (t : Text) → all is_plain t ≡ true → IsClosed t
plain-IsClosed t h = record { scanned = plain-scan t h }

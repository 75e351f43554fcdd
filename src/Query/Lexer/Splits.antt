-- ===== src/Query/Lexer/Splits.antt =====
-- Where the tokens of lexer.go stand in the text: nothing is skipped but blanks, and positions
-- count the characters read.
use cairnobs.Base.{
  ℕ, ◌+◌, ◌<◌, Bool, true, false, ◌&&◌, [], ◌∷◌, ◌++◌, ◌==◌, if◌then◌else◌, Text, length,
  take_while, drop_while, all, all-take_while, take_while-append-drop_while, length-append,
  append_assoc, append-nil, ◌≤◌, ◌≡◌, refl, sym, ap, arith, ◌∙◌, Bool-cases, &&-eq-true, inl, inr,
  ==_iff,
}
use cairnobs.Query.Lexer.{
  Kind, illegal, string, pipe, eq, neq, gt, gte, lt, lte, colon, comma, lparen, rparen, minus, plus,
  star, Token, Lexer, is_blank, is_digit, is_ident_part, is_ident_start, string_loop, fraction,
  after_fraction, lex_number, lex_ident, lex_char, next_at, next, skip_whitespace, make, peek,
  tail_of, is_eof,
}

-- The value of such a token is the text that it stands for.
abbrev pub is_verbatim : Kind → Bool
is_verbatim string = false
is_verbatim illegal = false
is_verbatim _ = true

-- The token and lexer of `r` come from reading a front part of `s`, which stands at `start`.
pub record Reads (s : Text) (start : ℕ) (r : Token × Lexer) : Type 0 where
  pub lexeme : Text
  pub splits : s ≡ lexeme ++ r.1.input
  pub starts : r.0.pos ≡ start
  pub ends : r.1.pos ≡ start + length lexeme
  pub verbatim : is_verbatim r.0.kind ≡ true → r.0.value ≡ lexeme
  pub at_end : is_eof r.0.kind ≡ true → s ≡ []
  pub progress : is_eof r.0.kind ≡ false → 0 < length lexeme

is_eof-is_verbatim : (k : Kind) → is_verbatim k ≡ false → is_eof k ≡ false
unfolding is_eof
is_eof-is_verbatim k h = ground arith

-- What `lexString` reads behind the quote, given what it has read.
abbrev StringReads : ℕ → ℕ → Text → Token × Lexer → Type 0
StringReads start n s r =
    (used : Text) × (s ≡ used ++ r.1.input)
    × (r.0.pos ≡ start)
    × (r.1.pos ≡ start + (n + length used))
    × (is_verbatim r.0.kind ≡ false)

string_loop-reads : (start n : ℕ) (sb s : Text) → StringReads start n s (string_loop start n sb s)
unfolding string_loop
string_loop-reads start n sb [] = ([], refl, refl, omega arith, refl)
string_loop-reads start n sb (c ∷ []) = elim (Bool-cases (c == b'"')) [
  | inl e ↦ rw e (c ∷ [], refl, refl, omega arith, refl)
  | inr e ↦ rw e (c ∷ [], refl, refl, omega arith, refl)
]
string_loop-reads start n sb (c ∷ d ∷ cs) = elim (Bool-cases (c == b'"')) [
  | inl e ↦ rw e (c ∷ [], refl, refl, omega arith, refl)
  | inr e ↦ rw e (elim (Bool-cases (c == b'\\')) [
    | inl e' ↦ rw e' (
        let (used, splits, starts, ends, kind) =
          string_loop-reads start (n + 2) (sb ++ d ∷ []) cs in
        (c ∷ d ∷ used, ap (λ t. c ∷ d ∷ t) splits, starts, omega arith, kind))
    | inr e' ↦ rw e' (
        let (used, splits, starts, ends, kind) =
          string_loop-reads start (n + 1) (sb ++ c ∷ []) (d ∷ cs) in
        (c ∷ used, ap (λ t. c ∷ t) splits, starts, omega arith, kind))
  ])
]

fraction_splits : (s : Text) → s ≡ fraction s ++ after_fraction s
unfolding fraction after_fraction
fraction_splits [] = refl
fraction_splits (c ∷ []) = refl
fraction_splits (c ∷ d ∷ cs) = ground (arith, take_while-append-drop_while is_digit (d ∷ cs))

lex_number-Reads :
    (c : ℕ) (cs : Text) (start : ℕ)
    → is_digit c ≡ true
    → Reads (c ∷ cs) start (lex_number (c ∷ cs) start)
unfolding lex_number is_eof take_while
lex_number-Reads c cs start h =
    let s : Text = c ∷ cs in
    record {
      lexeme = take_while is_digit s ++ fraction (drop_while is_digit s);
      splits =
          sym (take_while-append-drop_while is_digit s)
          ∙ ap (λ t. take_while is_digit s ++ t) (fraction_splits (drop_while is_digit s))
          ∙ sym (append_assoc (take_while is_digit s) _ _);
      starts = refl;
      ends = refl;
      verbatim = λ _. refl;
      at_end = λ t. cc;
      progress = λ _. rw h (omega arith);
    }

lex_ident-Reads :
    (c : ℕ) (cs : Text) (start : ℕ)
    → is_ident_start c ≡ true
    → Reads (c ∷ cs) start (lex_ident (c ∷ cs) start)
unfolding lex_ident is_eof take_while is_ident_part
lex_ident-Reads c cs start h =
    let s : Text = c ∷ cs in
    record {
      lexeme = take_while is_ident_part s;
      splits = sym (take_while-append-drop_while is_ident_part s);
      starts = refl;
      ends = refl;
      verbatim = λ _. refl;
      at_end = λ t. cc;
      progress = λ _. rw h (omega arith);
    }

string-Reads : (cs : Text) (start : ℕ) → Reads (b'"' ∷ cs) start (string_loop start 1 [] cs)
string-Reads cs start =
    let (used, splits, starts, ends, kind) = string_loop-reads start 1 [] cs in
    record {
      lexeme = b'"' ∷ used;
      splits = ap (λ t. b'"' ∷ t) splits;
      starts = starts;
      ends = omega arith;
      verbatim = λ h. cc;
      at_end = λ h. cc (is_eof-is_verbatim _ kind);
      progress = λ _. omega arith;
    }

one-Reads :
    (c : ℕ) (cs : Text) (start : ℕ) (k : Kind)
    → is_eof k ≡ false
    → Reads (c ∷ cs) start (make k (c ∷ []) start cs 1)
one-Reads c cs start k e = record {
  lexeme = c ∷ [];
  splits = refl;
  starts = refl;
  ends = refl;
  verbatim = λ _. refl;
  at_end = λ t. cc;
  progress = λ _. omega arith;
}

two-Reads :
    (c : ℕ) (cs : Text) (start : ℕ) (k : Kind)
    → is_eof k ≡ false
    → (peek cs == b'=') ≡ true
    → Reads (c ∷ cs) start (make k (c ∷ b'=' ∷ []) start (tail_of cs) 2)
two-Reads c [] start k e h = cc
two-Reads c (d ∷ cs) start k e h = record {
  lexeme = c ∷ d ∷ [];
  splits = refl;
  starts = refl;
  ends = refl;
  verbatim = λ _. rw ((==_iff d b'=').0 h);
  at_end = λ t. cc;
  progress = λ _. omega arith;
}

branch-Reads :
    {s : Text} {start : ℕ} (b : Bool) (x y : Token × Lexer)
    → (b ≡ true → Reads s start x)
    → (b ≡ false → Reads s start y)
    → Reads s start (if b then x else y)
branch-Reads true x y f g = f refl
branch-Reads false x y f g = g refl

-- Each branch of the `switch` reads a front part of the text.
lex_char-Reads : (c : ℕ) (cs : Text) (start : ℕ) → Reads (c ∷ cs) start (lex_char c cs start)
unfolding lex_char is_eof
lex_char-Reads c cs start =
    branch-Reads (c == b'|') _ _ (λ _. one-Reads c cs start pipe refl)
      λ _.
        branch-Reads (c == b'=') _ _ (λ _. one-Reads c cs start eq refl)
          λ _.
            branch-Reads (c == b'!' && peek cs == b'=') _ _
              (λ h. two-Reads c cs start neq refl (&&-eq-true _ _ h).1)
              λ _.
                branch-Reads (c == b'>' && peek cs == b'=') _ _
                  (λ h. two-Reads c cs start gte refl (&&-eq-true _ _ h).1)
                  λ _.
                    branch-Reads (c == b'>') _ _ (λ _. one-Reads c cs start gt refl)
                      λ _.
                        branch-Reads (c == b'<' && peek cs == b'=') _ _
                          (λ h. two-Reads c cs start lte refl (&&-eq-true _ _ h).1)
                          λ _.
                            branch-Reads (c == b'<') _ _ (λ _. one-Reads c cs start lt refl)
                              λ _.
                                branch-Reads (c == b':') _ _ (λ _. one-Reads c cs start colon refl)
                                  λ _.
                                    branch-Reads (c == b',') _ _
                                      (λ _. one-Reads c cs start comma refl)
                                      λ _.
                                        branch-Reads (c == b'(') _ _
                                          (λ _. one-Reads c cs start lparen refl)
                                          λ _.
                                            branch-Reads (c == b')') _ _
                                              (λ _. one-Reads c cs start rparen refl)
                                              λ _.
                                                branch-Reads (c == b'-') _ _
                                                  (λ _. one-Reads c cs start minus refl)
                                                  λ _.
                                                    branch-Reads (c == b'+') _ _
                                                      (λ _. one-Reads c cs start plus refl)
                                                      λ _.
                                                        branch-Reads (c == b'*') _ _
                                                          (λ _. one-Reads c cs start star refl)
                                                          λ _.
                                                            branch-Reads (c == b'"') _ _
                                                            (λ h. quote h)
                                                            λ _.
                                                            branch-Reads (is_digit c) _ _
                                                            (λ h. lex_number-Reads c cs start h)
                                                            λ _.
                                                            branch-Reads (is_ident_start c) _ _
                                                            (λ h. lex_ident-Reads c cs start h)
                                                            λ _. one-Reads c cs start illegal refl
  where
    quote : (c == b'"') ≡ true → Reads (c ∷ cs) start (string_loop start 1 [] cs)
    quote h = rw ((==_iff c b'"').0 h) (string-Reads cs start)

-- What `Next` does to a lexer `l`: it skips blanks only, and the token stands behind them.
pub record Advances (l : Lexer) (r : Token × Lexer) : Type 0 where
  pub blanks : Text
  pub lexeme : Text
  pub splits : l.input ≡ blanks ++ (lexeme ++ r.1.input)
  pub skipped : all is_blank blanks ≡ true
  pub starts : r.0.pos ≡ l.pos + length blanks
  pub ends : r.1.pos ≡ r.0.pos + length lexeme
  pub verbatim : is_verbatim r.0.kind ≡ true → r.0.value ≡ lexeme
  pub at_end : is_eof r.0.kind ≡ true → l.input ≡ blanks
  pub progress : is_eof r.0.kind ≡ false → 0 < length lexeme

next_at-Reads : (s : Text) (start : ℕ) → Reads s start (next_at s start)
unfolding next_at is_eof
next_at-Reads [] start = record {
  lexeme = [];
  splits = refl;
  starts = refl;
  ends = omega arith;
  verbatim = λ _. refl;
  at_end = λ _. refl;
  progress = λ e. cc;
}
next_at-Reads (c ∷ cs) start = lex_char-Reads c cs start

-- `Next` reads the text from left to right: what it takes is blanks and then the token's text,
-- which is its value but for quoted strings and illegal tokens; `Pos` and the lexer's position
-- count the characters (runes) before the token and up to its end, not bytes. The end-of-text
-- token comes only when blanks alone are left, and every other token takes at least one character.
pub next-Advances : (l : Lexer) → Advances l (next l)
unfolding next skip_whitespace
next-Advances l =
    let at = l.pos + length (take_while is_blank l.input) in
    let r = next_at-Reads (drop_while is_blank l.input) at in
    record {
      blanks = take_while is_blank l.input;
      lexeme = r.lexeme;
      splits =
          sym (take_while-append-drop_while is_blank l.input)
          ∙ ap (λ t. take_while is_blank l.input ++ t) r.splits;
      skipped = all-take_while is_blank l.input;
      starts = r.starts;
      ends = r.ends ∙ ap (λ n. n + length r.lexeme) (sym r.starts);
      verbatim = r.verbatim;
      at_end = λ e.
          sym (take_while-append-drop_while is_blank l.input)
          ∙ ap (λ t. take_while is_blank l.input ++ t) (r.at_end e)
          ∙ append-nil _;
      progress = r.progress;
    }

-- A call of `Next` never lengthens the text that is left, and shortens it unless it is at the end.
pub length-next :
    (l : Lexer)
    → (length (next l).1.input ≤ length l.input)
      × (is_eof (next l).0.kind ≡ false → length (next l).1.input < length l.input)
length-next l =
    let a = next-Advances l in
    let counted : length l.input ≡ length a.blanks + (length a.lexeme + length (next l).1.input) =
      ap length a.splits
      ∙ length-append a.blanks _
      ∙ ap (λ n. length a.blanks + n) (length-append a.lexeme _) in
    (omega arith, λ e. omega (arith, a.progress e))

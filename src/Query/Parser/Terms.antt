-- ===== src/Query/Parser/Terms.antt =====
-- Filters and search terms (parser.go: `parseBoolExpr` down to `parseExplicitFreeText`).
use cairnobs.Base.{
  ℕ, zero, suc, ◌+◌, ◌-◌, ◌*◌, ◌^◌, Bool, true, false, ◌&&◌, ◌||◌, [], ◌∷◌, ◌++◌, Option, none,
  some, ltb, if◌then◌else◌, not, Text, codes, text_eq, is_empty, all,
}
use cairnobs.Base.Int.{ℤ, pos, negsuc}
use cairnobs.Query.Ast.{TimeExpr, Term, comparison, time_bound, free_text, BoolExpr}
use cairnobs.Query.Lexer.{
  Kind, ident, string, number, eq, neq, gt, gte, lt, lte, colon, minus, plus, Token, is_digit,
}
use cairnobs.Query.Parser.State.{
  expected_filter, expected_comparator, expected_value, expected_time, invalid_time_number,
  expected_time_unit, expected_quoted, err, out_of_fuel, Parse, ◌>>=◌, ◌>>◌, return, errorf,
  kind_eq, advance, expect,
}
use Prim.Native.String.{String}

abbrev pub spells : Text → String → Bool
spells v s = text_eq v (codes s)

unfoldable pub is_comparator_start : Kind → Bool
is_comparator_start eq = true
is_comparator_start neq = true
is_comparator_start gt = true
is_comparator_start gte = true
is_comparator_start lt = true
is_comparator_start lte = true
is_comparator_start _ = false

unfoldable pub can_start_term : Kind → Bool
can_start_term ident = true
can_start_term string = true
can_start_term _ = false

unfoldable pub is_valid_time_unit : Text → Bool
is_valid_time_unit u = spells u "s" || spells u "m" || spells u "h" || spells u "d" || spells u "w"

-- The number that a list of decimal digits stands for, behind the digits read so far.
unfoldable pub decimal : ℕ → Text → ℕ
decimal n [] = n
decimal n (c ∷ cs) = decimal (n * 10 + (c - b'0')) cs

-- strconv.Atoi on a token of digits and at most one fraction, which has no sign: an error
-- unless all are digits and the number fits an int64.
unfoldable pub atoi : Text → Option ℕ
unfolding decimal is_digit
atoi v =
    if not (is_empty v) && all is_digit v && ltb (decimal 0 v) (2 ^ 63)
    then some (decimal 0 v)
    else none

unfoldable pub parse_comparator : Parse Text
unfolding advance
parse_comparator p =
    (if is_comparator_start p.cur.kind
        then (do advance; return p.cur.value)
        else errorf (expected_comparator p.cur))
      p

unfoldable pub parse_value : Parse Text
unfolding advance kind_eq
parse_value p =
    (if kind_eq p.cur.kind ident || kind_eq p.cur.kind string || kind_eq p.cur.kind number
        then (do advance; return p.cur.value)
        else errorf (expected_value p.cur))
      p

unfoldable pub parse_comparison : Parse Term
parse_comparison p =
    (do advance; op ← parse_comparator; v ← parse_value; return (comparison p.cur.value op v)) p

-- The unit behind the number of a relative offset.
unfoldable pub parse_unit : ℤ → ℕ → Parse TimeExpr
parse_unit sign n p =
    (if kind_eq p.cur.kind ident && is_valid_time_unit p.cur.value
        then (do
          advance
          return (record {
            absolute = [];
            is_relative = true;
            relative_sign = sign;
            relative_n = n;
            relative_unit = p.cur.value;
          }))
        else errorf (expected_time_unit n p.cur))
      p

-- The relative offset behind its sign.
unfoldable pub parse_offset : ℤ → Parse TimeExpr
parse_offset sign p =
    (if kind_eq p.cur.kind number
        then elim (atoi p.cur.value) [
          | none ↦ errorf (invalid_time_number p.cur.value)
          | some n ↦ (do advance; parse_unit sign n)
        ]
        else errorf (expected_time p.cur))
      p

unfoldable pub parse_time_expr : Parse TimeExpr
parse_time_expr p =
    (if kind_eq p.cur.kind string
        then (do
          advance
          return (record {
            absolute = p.cur.value;
            is_relative = false;
            relative_sign = pos 0;
            relative_n = 0;
            relative_unit = [];
          }))
        else if kind_eq p.cur.kind minus
        then (do advance; parse_offset (negsuc 0))
        else if kind_eq p.cur.kind plus
        then (do advance; parse_offset (pos 1))
        else parse_offset (pos 1))
      p

unfoldable pub parse_time_bound : Parse Term
parse_time_bound p =
    (do advance; expect eq; e ← parse_time_expr; return (time_bound p.cur.value e)) p

-- At the quoted string of `message:"..."`.
unfoldable pub parse_quoted : Parse Term
parse_quoted p =
    (if kind_eq p.cur.kind string
        then (do advance; return (free_text p.cur.value))
        else errorf (expected_quoted p.cur))
      p

unfoldable pub parse_explicit_free_text : Parse Term
parse_explicit_free_text = do advance; expect colon; parse_quoted

unfoldable pub parse_term : Parse Term
parse_term p =
    (if kind_eq p.cur.kind ident
        then (if spells p.cur.value "earliest" || spells p.cur.value "latest"
            then parse_time_bound
            else if spells p.cur.value "message" && kind_eq p.next.kind colon
            then parse_explicit_free_text
            else if is_comparator_start p.next.kind
            then parse_comparison
            else (do advance; return (free_text p.cur.value)))
        else if kind_eq p.cur.kind string
        then (do advance; return (free_text p.cur.value))
        else errorf (expected_filter p.cur))
      p

abbrev pub add_term : BoolExpr → Text → Term → BoolExpr
add_term e conj t = record { terms = e.terms ++ t ∷ []; conjs = e.conjs ++ conj ∷ [] }

unfoldable pub at_conj : Token → Bool
unfolding kind_eq
at_conj t = kind_eq t.kind ident && (spells t.value "and" || spells t.value "or")

-- The loop of `parseBoolExpr`, with the expression read so far.
unfoldable pub bool_expr_loop : ℕ → BoolExpr → Parse BoolExpr
bool_expr_loop zero e p = err out_of_fuel
bool_expr_loop (suc f) e p =
    (if at_conj p.cur
        then (do advance; t ← parse_term; bool_expr_loop f (add_term e p.cur.value t))
        else if can_start_term p.cur.kind
        then (do t ← parse_term; bool_expr_loop f (add_term e (codes "and") t))
        else return e)
      p

unfoldable pub parse_bool_expr : ℕ → Parse BoolExpr
parse_bool_expr f = do t ← parse_term; bool_expr_loop f (record { terms = t ∷ []; conjs = [] })

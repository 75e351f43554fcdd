-- ===== src/Query/Planner/Guard.antt =====
-- The guard of the SQL escape hatch (planner.go: `looksLikeSQL`, `validateSelectOnly` and the two
-- regular expressions).
use mathlib.Core.Bool.{xor}
use cairnobs.Base.{
  ℕ, Bool, false, not, ◌&&◌, ◌||◌, List, [], ◌∷◌, map, Option, none, some, ◌==◌, leb, if◌then◌else◌,
  Text, codes, text_eq, is_empty, is_space, trim_space, to_upper, fold_case, has_code, take_while,
  drop_while,
}

-- A word character of RE2's `\b`, which is ASCII only; a text's ends are no word characters.
unfoldable pub is_word : Option ℕ → Bool
is_word none = false
is_word (some c) =
    (leb b'a' c && leb c b'z')
    || (leb b'A' c && leb c b'Z')
    || (leb b'0' c && leb c b'9')
    || c == b'_'

abbrev pub first : Text → Option ℕ
first [] = none
first (c ∷ _) = some c

-- `\b` between the character before and the text behind.
unfoldable pub boundary : Option ℕ → Text → Bool
unfolding is_word
boundary before s = xor (is_word before) (is_word (first s))

-- The word `w`, in lower case, at the front of the text under (?i): the last character read and
-- the text behind it.
unfoldable pub match_word : Option ℕ → Text → Text → Option (Option ℕ × Text)
match_word before [] s = some (before, s)
match_word before (w ∷ ws) [] = none
match_word before (w ∷ ws) (c ∷ cs) = if fold_case c == w then match_word (some c) ws cs else none

-- What a pattern asks for behind the word.
abbrev pub Behind : Type 0
Behind = Option ℕ → Text → Bool

unfoldable pub word_here : Behind → Option ℕ → Text → Text → Bool
unfolding match_word
word_here behind before s w = elim (match_word before w s) [
  | none ↦ false
  | some (last, rest) ↦ behind last rest
]

unfoldable pub any_word_here : Behind → Option ℕ → Text → List Text → Bool
unfolding word_here
any_word_here behind before s [] = false
any_word_here behind before s (w ∷ ws) =
    word_here behind before s w || any_word_here behind before s ws

-- MatchString of `\b(w1|w2|...)` with `behind` after it: at some place of the text.
unfoldable pub match_string : Behind → List Text → Option ℕ → Text → Bool
unfolding any_word_here boundary
match_string behind ws before [] = boundary before [] && any_word_here behind before [] ws
match_string behind ws before (c ∷ cs) =
    (boundary before (c ∷ cs) && any_word_here behind before (c ∷ cs) ws)
    || match_string behind ws (some c) cs

abbrev pub disallowed_keywords : List Text
disallowed_keywords =
    codes "insert"
    ∷ codes "update"
    ∷ codes "delete"
    ∷ codes "alter"
    ∷ codes "drop"
    ∷ codes "truncate"
    ∷ codes "create"
    ∷ codes "grant"
    ∷ codes "revoke"
    ∷ codes "attach"
    ∷ codes "detach"
    ∷ codes "rename"
    ∷ codes "kill"
    ∷ codes "optimize"
    ∷ codes "system"
    ∷ codes "set"
    ∷ codes "exchange"
    ∷ codes "watch"
    ∷ []

-- In lower case, since the pattern ignores case.
abbrev pub disallowed_table_functions : List Text
disallowed_table_functions =
    codes "url"
    ∷ codes "remote"
    ∷ codes "remotesecure"
    ∷ codes "mysql"
    ∷ codes "postgresql"
    ∷ codes "s3"
    ∷ codes "s3cluster"
    ∷ codes "hdfs"
    ∷ codes "hdfscluster"
    ∷ codes "file"
    ∷ codes "odbc"
    ∷ codes "jdbc"
    ∷ codes "executable"
    ∷ codes "cluster"
    ∷ codes "clusterallreplicas"
    ∷ codes "azureblobstorage"
    ∷ codes "deltalake"
    ∷ codes "iceberg"
    ∷ codes "hudi"
    ∷ codes "redis"
    ∷ codes "mongodb"
    ∷ []

-- `\s` of RE2.
unfoldable pub is_pattern_space : ℕ → Bool
is_pattern_space c = c == 9 || c == 10 || c == 12 || c == 13 || c == 32

unfoldable pub at_paren : Text → Bool
at_paren [] = false
at_paren (c ∷ _) = c == b'('

-- `\s*\(`
unfoldable pub call_behind : Behind
unfolding is_pattern_space at_paren drop_while
call_behind _ s = at_paren (drop_while is_pattern_space s)

unfoldable pub has_disallowed_keyword : Text → Bool
unfolding match_string
has_disallowed_keyword = match_string boundary disallowed_keywords none

unfoldable pub has_disallowed_table_function : Text → Bool
unfolding match_string call_behind
has_disallowed_table_function = match_string call_behind disallowed_table_functions none

-- `strings.Fields(s)[0]`; empty if there is none.
unfoldable pub first_field : Text → Text
unfolding is_space take_while drop_while
first_field s = take_while (λ c. not (is_space c)) (drop_while is_space s)

unfoldable pub looks_like_sql : Text → Bool
unfolding trim_space first_field fold_case text_eq is_empty
looks_like_sql query =
    let trimmed = trim_space query in
    not (is_empty trimmed)
    && not (is_empty (first_field trimmed))
    && text_eq (map fold_case (first_field trimmed)) (codes "select")

-- strings.TrimSuffix(s, ";")
unfoldable pub trim_semicolon : Text → Text
trim_semicolon [] = []
trim_semicolon (c ∷ []) = if c == b';' then [] else c ∷ []
trim_semicolon (c ∷ d ∷ cs) = c ∷ trim_semicolon (d ∷ cs)

-- `strings.TrimSpace(strings.TrimSuffix(strings.TrimSpace(query), ";"))`
unfoldable pub statement : Text → Text
unfolding trim_space trim_semicolon
statement query = trim_space (trim_semicolon (trim_space query))

pub data SqlError : Type 0 where
  empty_query several_statements not_select disallowed_keyword disallowed_table_function : SqlError

-- `none` where Go returns nil.
unfoldable pub validate_select_only : Text → Option SqlError
validate_select_only sql =
    let trimmed = statement sql in
    if is_empty (trim_space sql)
    then some empty_query
    else if is_empty trimmed
    then some empty_query
    else if has_code b';' trimmed
    then some several_statements
    else if not (text_eq (map to_upper (first_field trimmed)) (codes "SELECT"))
    then some not_select
    else if has_disallowed_keyword trimmed
    then some disallowed_keyword
    else if has_disallowed_table_function trimmed
    then some disallowed_table_function
    else none

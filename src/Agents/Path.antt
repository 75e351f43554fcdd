-- ===== src/Agents/Path.antt =====
-- The check of a path that an agent is told to read (`validateExtraFilePath` of api/agents/handler.go),
-- and Go's path.Clean as far as it uses it: on a path that begins with a slash.
use cairnobs.Base.{
  ℕ, Bool, true, false, not, ◌||◌, ◌&&◌, List, [], ◌∷◌, ◌++◌, Option, none, some, if◌then◌else◌,
  ◌==◌, any, Text, text_eq, is_empty, codes,
}

-- strings.HasPrefix, HasSuffix and Contains.
unfoldable pub has_prefix : Text → Text → Bool
has_prefix s [] = true
has_prefix [] (c ∷ p) = false
has_prefix (x ∷ s) (c ∷ p) = x == c && has_prefix s p

unfoldable pub contains : Text → Text → Bool
unfolding has_prefix
contains [] sub = is_empty sub
contains (c ∷ s) sub = has_prefix (c ∷ s) sub || contains s sub

unfoldable pub has_suffix : Text → Text → Bool
unfolding text_eq
has_suffix [] suf = text_eq [] suf
has_suffix (c ∷ s) suf = text_eq (c ∷ s) suf || has_suffix s suf

-- The parts between slashes.
abbrev put_first : ℕ → List Text → List Text
put_first c [] = (c ∷ []) ∷ []
put_first c (p ∷ ps) = (c ∷ p) ∷ ps

unfoldable pub split_slash : Text → List Text
split_slash [] = [] ∷ []
split_slash (c ∷ s) = let rest = split_slash s in if c == b'/' then [] ∷ rest else put_first c rest

abbrev parent : List Text → List Text
parent [] = []
parent (p ∷ ps) = ps

-- The elements that are kept, the last one first.
unfoldable pub clean_parts : List Text → List Text → List Text
clean_parts kept [] = kept
clean_parts kept (p ∷ ps) =
    if is_empty p || text_eq p (codes ".")
    then clean_parts kept ps
    else if text_eq p (codes "..")
    then clean_parts (parent kept) ps
    else clean_parts (p ∷ kept) ps

unfoldable pub join_parts : Text → List Text → Text
join_parts s [] = s
join_parts s (p ∷ ps) = join_parts (b'/' ∷ (p ++ s)) ps

abbrev or_root : Text → Text
or_root [] = codes "/"
or_root s = s

unfoldable pub clean : Text → Text
unfolding split_slash clean_parts join_parts
clean p = or_root (join_parts [] (clean_parts [] (split_slash p)))

pub data PathError : Type 0 where
  not_absolute has_dot_dot not_canonical denied : PathError

abbrev pub denied_prefixes : List Text
denied_prefixes =
    codes "/etc" ∷ codes "/root" ∷ codes "/home" ∷ codes "/proc" ∷ codes "/sys" ∷ codes "/boot" ∷ []

abbrev pub denied_substrings : List Text
denied_substrings = codes "/.ssh/" ∷ codes "/.gnupg/" ∷ codes "/.aws/" ∷ codes "/.kube/" ∷ []

abbrev pub denied_suffixes : List Text
denied_suffixes =
    codes "-key.pem"
    ∷ codes "id_rsa"
    ∷ codes "id_ecdsa"
    ∷ codes "id_ed25519"
    ∷ codes "id_dsa"
    ∷ codes "/shadow"
    ∷ codes "/gshadow"
    ∷ []

-- The list holds the prefixes without their slash at the end.
abbrev pub is_under : Text → Text → Bool
is_under p dir = text_eq p dir || has_prefix p (dir ++ codes "/")

unfoldable pub is_denied : Text → Bool
unfolding has_prefix contains has_suffix any
is_denied p =
    any (is_under p) denied_prefixes
    || any (contains p) denied_substrings
    || any (has_suffix p) denied_suffixes

unfoldable pub validate_extra_file_path : Text → Option PathError
unfolding is_denied clean
validate_extra_file_path p =
    if not (has_prefix p (codes "/"))
    then some not_absolute
    else if contains p (codes "..")
    then some has_dot_dot
    else if not (text_eq (clean p) p)
    then some not_canonical
    else if is_denied p
    then some denied
    else none

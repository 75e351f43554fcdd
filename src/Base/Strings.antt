-- ===== src/Base/Strings.antt =====
-- Text as the list of its code points (Go's `[]rune`), with what the program uses of Go's `strings`.
use Prim.Native.Char.{code}
use Prim.Native.Nat.{ℕ, zero, suc, ◌-◌, ◌+◌, ◌/◌, ◌%◌}
use Prim.Native.String.{String}
use mathlib.Core.Bool.{Bool, true, false, ◌&&◌, ◌||◌}
use mathlib.Core.List.{List, [], ◌∷◌, ◌++◌, reverse}
use mathlib.Core.Logic.{◌↔◌}
use mathlib.Core.Path.{◌≡◌}
use native.Mathlib.Omega.{arith}
use cairnobs.Base.Lists.{drop_while, any}
use cairnobs.Base.Tests.{leb, ltb, ◌==◌, if◌then◌else◌}

abbrev pub Text : Type 0
Text = List ℕ

abbrev pub codes : String → Text
codes String.[] = []
codes (String.◌∷◌ c s) = code c ∷ codes s

-- Go's `==` on strings.
unfoldable pub text_eq : Text → Text → Bool
text_eq [] [] = true
text_eq (x ∷ xs) (y ∷ ys) = x == y && text_eq xs ys
text_eq _ _ = false

pub text_eq_iff : (a b : Text) → (text_eq a b ≡ true) ↔ (a ≡ b)
unfolding text_eq
text_eq_iff (x ∷ a) (y ∷ b) = ground (arith, text_eq_iff a b)
text_eq_iff _ _ = ground arith

unfoldable pub is_empty : Text → Bool
is_empty [] = true
is_empty (_ ∷ _) = false

-- strings.Contains for a single character.
unfoldable pub has_code : ℕ → Text → Bool
unfolding any
has_code c s = any (λ d. d == c) s

-- strings.Join
unfoldable pub join : Text → List Text → Text
join sep [] = []
join sep (x ∷ []) = x
join sep (x ∷ y ∷ ys) = x ++ (sep ++ join sep (y ∷ ys))

-- unicode.IsSpace
unfoldable pub is_space : ℕ → Bool
is_space c =
    (leb 9 c && leb c 13)
    || c == 32
    || c == 0x85
    || c == 0xa0
    || c == 0x1680
    || (leb 0x2000 c && leb c 0x200a)
    || c == 0x2028
    || c == 0x2029
    || c == 0x202f
    || c == 0x205f
    || c == 0x3000

-- strings.TrimSpace
unfoldable pub trim_space : Text → Text
unfolding drop_while is_space
trim_space s = reverse (drop_while is_space (reverse (drop_while is_space s)))

-- What strings.ToUpper gives at the code points whose upper case is an ASCII letter: the ASCII
-- letters, the dotless i and the long s. All other code points stay outside ASCII, so they are
-- left as they are: the program only compares the result with ASCII words.
unfoldable pub to_upper : ℕ → ℕ
to_upper c =
    if leb b'a' c && leb c b'z'
    then c - 32
    else if c == 0x131
    then b'I'
    else if c == 0x17f
    then b'S'
    else c

-- One representative of each class of Unicode simple folding that holds an ASCII letter: the
-- long s folds to s and the Kelvin sign to k (strings.EqualFold and the regexp flag (?i)).
unfoldable pub fold_case : ℕ → ℕ
fold_case c =
    if leb b'A' c && leb c b'Z'
    then c + 32
    else if c == 0x17f
    then b's'
    else if c == 0x212a
    then b'k'
    else c

-- The decimal digits of `n` in front of `rest`; the fuel is more than the digits of `n`.
unfoldable pub digits_onto : ℕ → ℕ → Text → Text
digits_onto zero n rest = rest
digits_onto (suc f) n rest =
    let last = (b'0' + n % 10) ∷ rest in
    let more = digits_onto f (n / 10) last in if ltb n 10 then last else more

-- `%d` of a number that is not negative.
unfoldable pub decimal_text : ℕ → Text
decimal_text n = digits_onto (suc n) n []

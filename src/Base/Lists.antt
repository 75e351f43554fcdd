-- ===== src/Base/Lists.antt =====
-- Lists measured by native numbers, predicates on every element, and the scans that the
-- components share.
use Prim.Native.Nat.{ℕ, zero, suc, ◌+◌, ◌≤◌}
use mathlib.Core.Path.{◌≡◌, refl}
use mathlib.Core.Bool.{Bool, true, false, ◌&&◌, ◌||◌}
use mathlib.Core.List.{List, [], ◌∷◌, ◌++◌}
use mathlib.Core.Option.{Option, none, some}
use native.Mathlib.Omega.{arith}
use cairnobs.Base.Tests.{if◌then◌else◌}

module _ {ℓ} {A : Type ℓ} where
  abbrev pub length : List A → ℕ
  length [] = 0
  length (x ∷ xs) = suc (length xs)

  abbrev pub get_elem? : List A → ℕ → Option A
  get_elem? [] i = none
  get_elem? (x ∷ xs) zero = some x
  get_elem? (x ∷ xs) (suc i) = get_elem? xs i

  pub length-append : (xs ys : List A) → length (xs ++ ys) ≡ length xs + length ys
  length-append [] ys = omega arith
  length-append (x ∷ xs) ys = omega (arith, length-append xs ys)

  -- The longest front part whose elements pass the test, and what is behind it.
  unfoldable pub take_while : (A → Bool) → List A → List A
  take_while f [] = []
  take_while f (x ∷ xs) = if f x then x ∷ take_while f xs else []

  unfoldable pub drop_while : (A → Bool) → List A → List A
  drop_while f [] = []
  drop_while f (x ∷ xs) = if f x then drop_while f xs else x ∷ xs

  unfoldable pub all : (A → Bool) → List A → Bool
  all f [] = true
  all f (x ∷ xs) = f x && all f xs

  unfoldable pub any : (A → Bool) → List A → Bool
  any f [] = false
  any f (x ∷ xs) = f x || any f xs

module _ {ℓ} {A : Type ℓ} where
  pub take_while-append-drop_while :
      (f : A → Bool) (xs : List A) → take_while f xs ++ drop_while f xs ≡ xs
  unfolding take_while drop_while
  take_while-append-drop_while f [] = refl
  take_while-append-drop_while f (x ∷ xs) = ground (arith, take_while-append-drop_while f xs)

  pub all-take_while : (f : A → Bool) (xs : List A) → all f (take_while f xs) ≡ true
  unfolding all take_while
  all-take_while f [] = refl
  all-take_while f (x ∷ xs) = ground (arith, all-take_while f xs)

  pub length-drop_while : (f : A → Bool) (xs : List A) → length (drop_while f xs) ≤ length xs
  unfolding drop_while
  length-drop_while f [] = omega arith
  length-drop_while f (x ∷ xs) = ground (arith, length-drop_while f xs)

  pub all-append : (f : A → Bool) (xs ys : List A) → all f (xs ++ ys) ≡ (all f xs && all f ys)
  unfolding all
  all-append f [] ys = refl
  all-append f (x ∷ xs) ys = ground (arith, all-append f xs ys)

  pub any-append : (f : A → Bool) (xs ys : List A) → any f (xs ++ ys) ≡ (any f xs || any f ys)
  unfolding any
  any-append f [] ys = refl
  any-append f (x ∷ xs) ys = ground (arith, any-append f xs ys)

abbrev pub is_nil {ℓ} : {A : Type ℓ} → List A → Bool
is_nil [] = true
is_nil (_ ∷ _) = false

-- A predicate by recursion computes to tuples.
abbrev pub All {ℓ κ} : {A : Type ℓ} → (A → Type κ) → List A → Type κ
All P [] = Unit
All P (x ∷ xs) = P x × All P xs

pub All-append {ℓ κ} :
    {A : Type ℓ} (P : A → Type κ) (xs ys : List A) → All P xs → All P ys → All P (xs ++ ys)
All-append P [] ys hx hy = hy
All-append P (x ∷ xs) ys hx hy = (hx.0, All-append P xs ys hx.1 hy)

pub All-concat {ℓ κ} :
    {A : Type ℓ} (P : A → Type κ) (xs : List A) (y : A) → All P xs → P y → All P (xs ++ y ∷ [])
All-concat P xs y hx hy = All-append P xs (y ∷ []) hx (hy, tt)

-- ===== src/Base/Rows.antt =====
-- A table as the list of its rows, and the SQL statements on one table.
use Prim.Native.Nat.{ℕ, ◌+◌, ◌≤◌, ◌<◌}
use mathlib.Core.Bool.{Bool, true, false, ◌&&◌}
use mathlib.Core.List.{List, [], ◌∷◌, ◌++◌}
use mathlib.Core.Option.{Option, none, some}
use mathlib.Core.Logic.{inl, inr}
use mathlib.Core.Path.{◌≡◌, refl, ap, subst}
use native.Mathlib.Omega.{arith}
use cairnobs.Base.Lists.{any, All, length}
use cairnobs.Base.Tests.{if◌then◌else◌, Bool-cases}

module _ {A : Type 0} where
  -- SELECT ... WHERE, on rows of which at most one fits.
  unfoldable pub find_if : (A → Bool) → List A → Option A
  find_if f [] = none
  find_if f (x ∷ xs) = let rest = find_if f xs in if f x then some x else rest

  -- DELETE ... WHERE
  unfoldable pub remove_if : (A → Bool) → List A → List A
  remove_if f [] = []
  remove_if f (x ∷ xs) = let rest = remove_if f xs in if f x then rest else x ∷ rest

  -- UPDATE ... SET ... WHERE
  unfoldable pub update_if : (A → Bool) → (A → A) → List A → List A
  update_if f g [] = []
  update_if f g (x ∷ xs) = (if f x then g x else x) ∷ update_if f g xs

  -- SELECT count(*) ... WHERE
  unfoldable pub count_if : (A → Bool) → List A → ℕ
  count_if f [] = 0
  count_if f (x ∷ xs) = (if f x then 1 else 0) + count_if f xs

  -- SELECT ... WHERE
  unfoldable pub select_if : (A → Bool) → List A → List A
  select_if f [] = []
  select_if f (x ∷ xs) = let rest = select_if f xs in if f x then x ∷ rest else rest

  pub count_if-append :
      (f : A → Bool) (xs ys : List A) → count_if f (xs ++ ys) ≡ count_if f xs + count_if f ys
  unfolding count_if
  count_if-append f [] ys = omega arith
  count_if-append f (x ∷ xs) ys = ground (arith, count_if-append f xs ys)

  pub count_if-any : (f : A → Bool) (xs : List A) → any f xs ≡ false → count_if f xs ≡ 0
  unfolding count_if any
  count_if-any f [] h = refl
  count_if-any f (x ∷ xs) h = ground (arith, count_if-any f xs)

  -- Removing rows changes a count by the rows that it counted.
  pub count_if-remove_if :
      (f g : A → Bool) (xs : List A)
      → count_if f (remove_if g xs) + count_if (λ x. f x && g x) xs ≡ count_if f xs
  unfolding count_if remove_if
  count_if-remove_if f g [] = refl
  count_if-remove_if f g (x ∷ xs) = ground (arith, count_if-remove_if f g xs)

  pub count_if-and : (f g : A → Bool) (xs : List A) → count_if (λ x. f x && g x) xs ≤ count_if g xs
  unfolding count_if
  count_if-and f g [] = omega arith
  count_if-and f g (x ∷ xs) = ground (arith, count_if-and f g xs)

  pub count_if-remove_le :
      (f g : A → Bool) (xs : List A) → count_if f (remove_if g xs) ≤ count_if f xs
  count_if-remove_le f g xs = omega (arith, count_if-remove_if f g xs)

  pub find_if-append :
      (f : A → Bool) (xs ys : List A) (x : A)
      → find_if f xs ≡ some x
      → find_if f (xs ++ ys) ≡ some x
  unfolding find_if
  find_if-append f [] ys y h = absurd (ground arith)
  find_if-append f (x ∷ xs) ys y h = ground (arith, find_if-append f xs ys y)

  pub find_if-append-none :
      (f : A → Bool) (xs ys : List A) → find_if f xs ≡ none → find_if f (xs ++ ys) ≡ find_if f ys
  unfolding find_if
  find_if-append-none f [] ys h = refl
  find_if-append-none f (x ∷ xs) ys h = ground (arith, find_if-append-none f xs ys, h)

  pub find_if-any : (f : A → Bool) (xs : List A) (x : A) → find_if f xs ≡ some x → any f xs ≡ true
  unfolding find_if any
  find_if-any f [] y h = absurd (ground arith)
  find_if-any f (x ∷ xs) y h = ground (arith, find_if-any f xs y, h)

  pub find_if-none : (f : A → Bool) (xs : List A) → find_if f xs ≡ none → any f xs ≡ false
  unfolding find_if any
  find_if-none f [] h = refl
  find_if-none f (x ∷ xs) h = ground (arith, find_if-none f xs, h)

  pub find_if-holds : (f : A → Bool) (xs : List A) (x : A) → find_if f xs ≡ some x → f x ≡ true
  unfolding find_if
  find_if-holds f [] y h = absurd (ground arith)
  find_if-holds f (x ∷ xs) y h = ground (arith, find_if-holds f xs y)

  -- What stands before and behind the row that a search finds.
  pub record Split (xs : List A) (x : A) : Type 0 where
    pub before : List A
    pub after : List A
    pub split : xs ≡ before ++ x ∷ after

  pub find_if-Split : (f : A → Bool) (xs : List A) (x : A) → find_if f xs ≡ some x → Split xs x
  unfolding find_if
  find_if-Split f [] y h = absurd (ground arith)
  find_if-Split f (x ∷ xs) y h = elim (Bool-cases (f x)) [
    | inl e ↦ record { before = []; after = xs; split = cc (rw e at h) }
    | inr e ↦
        let rest = find_if-Split f xs y (rw e at h) in
        record { before = x ∷ rest.before; after = rest.after; split = ap (λ l. x ∷ l) rest.split }
  ]

  -- Removing rows that a search passes over does not change what it finds.
  pub find_if-remove_if :
      (f g : A → Bool) (xs : List A)
      → ((x : A) → f x ≡ true → g x ≡ false)
      → find_if f (remove_if g xs) ≡ find_if f xs
  unfolding find_if remove_if
  find_if-remove_if f g [] h = refl
  find_if-remove_if f g (x ∷ xs) h = ground (arith, find_if-remove_if f g xs h, h x)

  pub count_if_mono :
      (f g : A → Bool) (xs : List A)
      → ((x : A) → f x ≡ true → g x ≡ true)
      → count_if f xs ≤ count_if g xs
  unfolding count_if
  count_if_mono f g [] h = omega arith
  count_if_mono f g (x ∷ xs) h = ground (arith, count_if_mono f g xs h, h x)

  -- Where at most one row fits `f`, the row that a search finds decides what fits besides.
  pub count_if-find_if :
      (f h : A → Bool) (xs : List A) (x : A)
      → ((y : A) → h y ≡ true → f y ≡ true)
      → count_if f xs ≤ 1
      → find_if f xs ≡ some x
      → h x ≡ false
      → count_if h xs ≡ 0
  unfolding count_if find_if
  count_if-find_if f h [] x i one e n = refl
  count_if-find_if f h (y ∷ xs) x i one e n =
      ground (arith, count_if-find_if f h xs x i, count_if_mono h f xs i, i y)

  pub count_if-update_if :
      (f h : A → Bool) (g : A → A) (xs : List A)
      → ((x : A) → f (g x) ≡ f x)
      → count_if f (update_if h g xs) ≡ count_if f xs
  unfolding count_if update_if
  count_if-update_if f h g [] e = refl
  count_if-update_if f h g (x ∷ xs) e = ground (arith, count_if-update_if f h g xs e, e x)

  -- An update takes away from a count at most the rows that it changes.
  pub count_if-update_le :
      (f h : A → Bool) (g : A → A) (xs : List A)
      → count_if f xs ≤ count_if f (update_if h g xs) + count_if (λ x. f x && h x) xs
  unfolding count_if update_if
  count_if-update_le f h g [] = omega arith
  count_if-update_le f h g (x ∷ xs) = ground (arith, count_if-update_le f h g xs)

  pub count_if-update_any :
      (f h : A → Bool) (g : A → A) (xs : List A)
      → ((x : A) → h x ≡ true → f (g x) ≡ true)
      → any h xs ≡ true
      → 1 ≤ count_if f (update_if h g xs)
  unfolding count_if update_if any
  count_if-update_any f h g [] e a = absurd (ground arith)
  count_if-update_any f h g (x ∷ xs) e a = ground (arith, count_if-update_any f h g xs e, e x)

  pub find_if-update_if :
      (f h : A → Bool) (g : A → A) (xs : List A)
      → ((x : A) → f (g x) ≡ f x)
      → ((x : A) → f x ≡ true → h x ≡ false)
      → find_if f (update_if h g xs) ≡ find_if f xs
  unfolding find_if update_if
  find_if-update_if f h g [] e n = refl
  find_if-update_if f h g (x ∷ xs) e n = ground (arith, find_if-update_if f h g xs e n, e x, n x)

  -- After an update a search finds the row that it found before, changed where it fits.
  pub find_if-update_if-found :
      (f h : A → Bool) (g : A → A) (xs : List A) (y : A)
      → ((x : A) → f (g x) ≡ f x)
      → find_if f (update_if h g xs) ≡ some y
      → (x : A) × (find_if f xs ≡ some x) × (y ≡ (if h x then g x else x))
  unfolding find_if update_if
  find_if-update_if-found f h g [] y k e = absurd (ground arith)
  find_if-update_if-found f h g (x ∷ xs) y k e = elim (Bool-cases (f x)) [
    | inl b ↦ (x, ground (arith, b), ground (arith, b, k x, e))
    | inr b ↦
        let r = find_if-update_if-found f h g xs y k (ground (arith, b, k x, e)) in
        (r.0, ground (arith, b, r.1), r.2)
  ]

  pub find_if-update_if-none :
      (f h : A → Bool) (g : A → A) (xs : List A)
      → ((x : A) → f (g x) ≡ f x)
      → find_if f (update_if h g xs) ≡ none
      → find_if f xs ≡ none
  unfolding find_if update_if
  find_if-update_if-none f h g [] k e = refl
  find_if-update_if-none f h g (x ∷ xs) k e =
      ground (arith, k x, e, find_if-update_if-none f h g xs k)

  -- Removing rows that a selection passes over does not change it.
  pub select_if-remove_if :
      (f g : A → Bool) (xs : List A)
      → ((x : A) → f x ≡ true → g x ≡ false)
      → select_if f (remove_if g xs) ≡ select_if f xs
  unfolding select_if remove_if
  select_if-remove_if f g [] h = refl
  select_if-remove_if f g (x ∷ xs) h = ground (arith, select_if-remove_if f g xs h, h x)

  pub any-remove_if :
      (f g : A → Bool) (xs : List A)
      → ((x : A) → f x ≡ true → g x ≡ false)
      → any f xs ≡ true
      → any f (remove_if g xs) ≡ true
  unfolding any remove_if
  any-remove_if f g [] h e = absurd (ground arith)
  any-remove_if f g (x ∷ xs) h e = ground (arith, any-remove_if f g xs h, h x, e)

  pub length-remove_if : (g : A → Bool) (xs : List A) → length (remove_if g xs) ≤ length xs
  unfolding remove_if
  length-remove_if g [] = omega arith
  length-remove_if g (x ∷ xs) = ground (arith, length-remove_if g xs)

  pub length-remove_if-any :
      (g : A → Bool) (xs : List A) → any g xs ≡ true → length (remove_if g xs) < length xs
  unfolding remove_if any
  length-remove_if-any g [] e = absurd (ground arith)
  length-remove_if-any g (x ∷ xs) e =
      ground (arith, length-remove_if g xs, length-remove_if-any g xs, e)

  -- What holds of all rows holds of those that are left, and the test fails on them.
  pub All-remove_if {κ} :
      (P : A → Type κ) (f : A → Bool) (xs : List A)
      → All P xs
      → All (λ x. P x × (f x ≡ false)) (remove_if f xs)
  unfolding remove_if
  All-remove_if P f [] h = tt
  All-remove_if P f (x ∷ xs) h = elim (Bool-cases (f x)) [
    | inl e ↦ rw e (All-remove_if P f xs h.1)
    | inr e ↦ rw e ((h.0, e), All-remove_if P f xs h.1)
  ]

  pub All-map {κ μ} :
      (P : A → Type κ) (Q : A → Type μ) (xs : List A) → ((x : A) → P x → Q x) → All P xs → All Q xs
  All-map P Q [] f h = tt
  All-map P Q (x ∷ xs) f h = (f x h.0, All-map P Q xs f h.1)

  pub All-find_if {κ} :
      (P : A → Type κ) (f : A → Bool) (xs : List A) (x : A) → All P xs → find_if f xs ≡ some x → P x
  unfolding find_if
  All-find_if P f [] y h e = absurd (ground arith)
  All-find_if P f (x ∷ xs) y h e = by_test (f x) refl (λ d. All-find_if P f xs y h.1 d)
    where
      by_test : (b : Bool) → f x ≡ b → (find_if f xs ≡ some y → P y) → P y
      by_test true t rest = subst P (ground (arith, e, t)) h.0
      by_test false t rest = rest (ground (arith, e, t))

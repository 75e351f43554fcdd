-- ===== src/Base/Results.antt =====
-- A value or an error, for the components whose Go functions return `(T, error)`.
use mathlib.Core.Bool.{Bool, true, false}
use mathlib.Core.Path.{◌≡◌, subst}

pub data Result {ℓ κ} (E : Type ℓ) (A : Type κ) : Type (ℓ ⊔ κ) where
  ok : A → Result E A
  err : E → Result E A

infixl 5 ◌>>=◌
abbrev pub ◌>>=◌ {ℓ κ μ} :
    {E : Type ℓ} {A : Type κ} {B : Type μ} → Result E A → (A → Result E B) → Result E B
ok a >>= f = f a
err e >>= f = err e

-- What holds of the value of a success.
abbrev pub OnOk {ℓ κ μ} : {E : Type ℓ} {A : Type κ} → (A → Type μ) → Result E A → Type μ
OnOk P (ok a) = P a
OnOk P (err e) = Unit

pub OnOk-ok {ℓ κ μ} :
    {E : Type ℓ} {A : Type κ} (P : A → Type μ) (r : Result E A) (a : A) → OnOk P r → r ≡ ok a → P a
OnOk-ok P r a h e = subst (OnOk P) e h

abbrev pub is_ok {ℓ κ} : {E : Type ℓ} {A : Type κ} → Result E A → Bool
is_ok (ok a) = true
is_ok (err e) = false

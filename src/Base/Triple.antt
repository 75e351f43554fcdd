-- ===== src/Base/Triple.antt =====
-- Handlers that keep an invariant of the state, put together as the handlers are.
use mathlib.Core.Bool.{Bool, true, false}
use mathlib.Core.Path.{◌≡◌, refl}
use mathlib.Core.Option.{Option, none, some}
use cairnobs.Base.Handler.{
  Out, Handler, ◌>>=◌, answer, answered, goes_on, return, answer_if, of_result, of_write, reads,
  writes, Post, answers, continues, bind-Post, answer_of,
}
use cairnobs.Base.Results.{Result, ok, err, OnOk}

-- From a state with the invariant I, of which P holds, the handler answers in a state with I, or goes
-- on in one of which R holds besides.
abbrev pub Triple :
    {S Y A : Type 0} → (S → Type 0) → (S → Type 0) → (A → S → Type 0) → Handler S Y A → Type 0
Triple {S} {Y} {A} I P R m = (s : S) → I s → P s → Post (λ _ t. I t) (λ a t. I t × R a t) (m s)

abbrev pub Nothing : {S : Type 0} → S → Type 0
Nothing _ = Unit

-- What a body decodes to, or the answer to one that does not decode.
abbrev pub or_fail : {S Y A : Type 0} → Y → Option A → Handler S Y A
or_fail r none = answer r
or_fail r (some a) = return a

-- A call of a store whose state is S, which may be down.
abbrev pub attempt : {S E A : Type 0} → E → Bool → (S → Result E A) → S → Result E A
attempt e true f = f
attempt e false f = λ _. err e

pub any_value : {E A : Type 0} (r : Result E A) → OnOk (λ _. Unit {0}) r
any_value (ok a) = tt
any_value (err e) = tt

module _ {S Y : Type 0} {I : S → Type 0} where
  pub bind-Triple :
      {P : S → Type 0} {A B : Type 0} {R : A → S → Type 0} {T : B → S → Type 0} (m : Handler S Y A)
      (f : A → Handler S Y B)
      → Triple I P R m
      → ((a : A) → Triple I (R a) T (f a))
      → Triple I P T (m >>= f)
  bind-Triple m f k g s v p = bind-Post (m s) f (k s v p) (λ a t w. g a t w.0 w.1)

  pub answer_if-Triple : {P : S → Type 0} (b : Bool) (r : Y) → Triple I P (λ _. P) (answer_if b r)
  answer_if-Triple true r s v p = answers v
  answer_if-Triple false r s v p = continues (v, p)

  -- The test failed where the handler goes on.
  pub answer_if-Triple-unless :
      {P : S → Type 0} (b : Bool) (r : Y) → Triple I P (λ _ t. P t × (b ≡ false)) (answer_if b r)
  answer_if-Triple-unless true r s v p = answers v
  answer_if-Triple-unless false r s v p = continues (v, (p, refl))

  pub or_fail-Triple :
      {P : S → Type 0} {A : Type 0} (r : Y) (o : Option A) → Triple I P (λ _. P) (or_fail r o)
  or_fail-Triple r none s v p = answers v
  or_fail-Triple r (some a) s v p = continues (v, p)

  -- The value is the one that was there.
  pub or_fail-Triple-some :
      (P : S → Type 0) {A : Type 0} (r : Y) (o : Option A)
      → Triple I P (λ a _. o ≡ some a) (or_fail r o)
  or_fail-Triple-some P r none s v p = answers v
  or_fail-Triple-some P r (some a) s v p = continues (v, refl)

  pub answer-Triple : (P : S → Type 0) {T : Unit {0} → S → Type 0} (r : Y) → Triple I P T (answer r)
  answer-Triple P r s v p = answers v

  pub return-Triple : {P : S → Type 0} {A : Type 0} (a : A) → Triple {Y = Y} I P (λ _. P) (return a)
  return-Triple a s v p = continues (v, p)

  -- What is known of a value that is read.
  pub reads-Triple :
      {P : S → Type 0} {E A : Type 0} (F : A → S → Type 0) (f : E → Y) (down : E) (up : Bool)
      (g : S → Result E A)
      → ((s : S) → OnOk (λ a. F a s) (g s))
      → Triple I P (λ a t. P t × F a t) (reads f (attempt down up g))
  reads-Triple F f down false g h s v p = answers v
  reads-Triple {P} {E} {A} F f down true g h s v p = by_result (g s) (h s)
    where
      by_result :
          (m : Result E A)
          → OnOk (λ a. F a s) m
          → Post (λ _ t. I t) (λ a t. I t × (P t × F a t)) (of_result f m s)
      by_result (ok a) q = continues (v, (p, q))
      by_result (err e) q = answers v

  pub writes-Triple :
      {P : S → Type 0} {E A : Type 0} (f : E → Y) (down : E) (up : Bool) (g : S → Result E (A × S))
      → ((s : S) → I s → P s → OnOk (λ p. I p.1) (g s))
      → Triple I P (λ _. Nothing) (writes f (attempt down up g))
  writes-Triple f down false g h s v p = answers v
  writes-Triple {P} {E} {A} f down true g h s v p = by_result (g s) (h s v p)
    where
      by_result :
          (m : Result E (A × S))
          → OnOk (λ p. I p.1) m
          → Post (λ _ t. I t) (λ _ t. I t × Unit {0}) (of_write f s m)
      by_result (ok (a, t)) q = continues (q, tt)
      by_result (err e) q = answers v

  -- A weaker condition on the value to go on with.
  pub Triple-weaken :
      {P : S → Type 0} {A : Type 0} {R T : A → S → Type 0} (m : Handler S Y A)
      → Triple I P R m
      → ((a : A) (s : S) → I s → R a s → T a s)
      → Triple I P T m
  Triple-weaken {P} {A} {R} {T} m h k s v p = of_out (m s) (h s v p)
    where
      of_out :
          (o : Out S Y A)
          → Post (λ _ t. I t) (λ a t. I t × R a t) o
          → Post (λ _ t. I t) (λ a t. I t × T a t) o
      of_out (answered r t) (answers w) = answers w
      of_out (goes_on a t) (continues w) = continues (w.0, k a t w.0 w.1)

  -- What a handler leaves that keeps I.
  pub answer_of-Triple :
      (r : Y) (m : Handler S Y (Unit {0}))
      → Triple I Nothing (λ _. Nothing) m
      → (s : S) → I s
      → I (answer_of r (m s)).1
  answer_of-Triple r m h s v = of_out (m s) (h s v tt)
    where
      of_out :
          (o : Out S Y (Unit {0}))
          → Post (λ _ t. I t) (λ _ t. I t × Unit {0}) o
          → I (answer_of r o).1
      of_out (answered q t) (answers w) = w
      of_out (goes_on _ t) (continues w) = w.0

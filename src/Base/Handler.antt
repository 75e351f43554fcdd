-- ===== src/Base/Handler.antt =====
-- A request handler of the Go services: it reads and writes a state, and either goes on with a value
-- or has answered the request, as a Go handler has that called writeError and returned.
use mathlib.Core.Bool.{Bool, true, false}
use cairnobs.Base.Results.{Result, ok, err}

pub data Out (S R A : Type 0) : Type 0 where
  answered : R → S → Out S R A
  goes_on : A → S → Out S R A

abbrev pub Handler : Type 0 → Type 0 → Type 0 → Type 0
Handler S R A = S → Out S R A

module _ {S R : Type 0} where
  abbrev pub bind : {A B : Type 0} → Out S R A → (A → Handler S R B) → Out S R B
  bind (answered r s) f = answered r s
  bind (goes_on a s) f = f a s

  infixl 5 ◌>>=◌ ◌>>◌
  abbrev pub ◌>>=◌ : {A B : Type 0} → Handler S R A → (A → Handler S R B) → Handler S R B
  ◌>>=◌ m f = λ s. bind (m s) f

  abbrev pub ◌>>◌ : {B : Type 0} → Handler S R (Unit {0}) → Handler S R B → Handler S R B
  m >> k = m >>= λ _. k

  -- `writeError` or `writeJSON`, and return.
  abbrev pub answer : {A : Type 0} → R → Handler S R A
  answer r = λ s. answered r s

  abbrev pub return : {A : Type 0} → A → Handler S R A
  return a = λ s. goes_on a s

  abbrev pub answer_if : Bool → R → Handler S R (Unit {0})
  answer_if true r = λ s. answered r s
  answer_if false r = λ s. goes_on tt s

  -- A read of the state that may fail, with the answer to the failure.
  abbrev pub of_result : {E A : Type 0} → (E → R) → Result E A → Handler S R A
  of_result f (ok a) = λ s. goes_on a s
  of_result f (err e) = λ s. answered (f e) s

  abbrev pub reads : {E A : Type 0} → (E → R) → (S → Result E A) → Handler S R A
  reads f g = λ s. of_result f (g s) s

  -- A write that may fail, and then changes nothing.
  abbrev pub of_write : {E A : Type 0} → (E → R) → S → Result E (A × S) → Out S R A
  of_write f s (ok (a, t)) = goes_on a t
  of_write f s (err e) = answered (f e) s

  abbrev pub writes : {E A : Type 0} → (E → R) → (S → Result E (A × S)) → Handler S R A
  writes f g = λ s. of_write f s (g s)

  -- What holds of the state that the handler was given, of the answer with the state it leaves, and
  -- of the value with the state to go on with.
  pub data Post (Q : R → S → Type 0) {A : Type 0} (P : A → S → Type 0) : Out S R A → Type 0 where
    answers : {r : R} {s : S} → Q r s → Post Q P (answered r s)
    continues : {a : A} {s : S} → P a s → Post Q P (goes_on a s)

  pub bind-Post :
      {Q : R → S → Type 0} {A B : Type 0} {P : A → S → Type 0} {T : B → S → Type 0} (o : Out S R A)
      (f : A → Handler S R B)
      → Post Q P o
      → ((a : A) (s : S) → P a s → Post Q T (f a s))
      → Post Q T (bind o f)
  bind-Post (answered r s) f (answers q) k = answers q
  bind-Post (goes_on a s) f (continues p) k = k a s p

  -- The answer with the state; a handler that goes on at its end has answered with a status alone.
  abbrev pub answer_of : R → Out S R (Unit {0}) → R × S
  answer_of r (answered r' s) = (r', s)
  answer_of r (goes_on _ s) = (r, s)

-- ===== src/Query/Planner/Additions.antt =====
-- What a Boolean expression adds to a plan: its comparisons as filters, and time bounds.
use cairnobs.Base.{
  ℕ, suc, List, [], ◌∷◌, ◌++◌, Option, Text, ◌≡◌, refl, sym, ◌∙◌, ap, append-nil, append_assoc,
  Bool-cases, inl, inr,
}
use cairnobs.Base.Int.{ℤ}
use cairnobs.Base.Results.{Result, ok, err, ◌>>=◌}
use cairnobs.Query.Ast.{Term, comparison, time_bound, free_text, BoolExpr}
use cairnobs.Query.Ir.{FilterPredicate, SortField, Limit, Plan}
use cairnobs.Query.Parser.Terms.{spells}
use cairnobs.Query.Planner.Compile.{
  Error, resolve_time_expr, set_time_bound, conj_at, compile_term, compile_terms, compile_bool_expr,
}

unfoldable pub comparisons : List Term → List FilterPredicate
comparisons [] = []
comparisons (comparison f op v ∷ ts) = record { field = f; op = op; value = v } ∷ comparisons ts
comparisons (_ ∷ ts) = comparisons ts

-- What `after` holds more than `before`.
pub record Adds (filters : List FilterPredicate) (sort : List SortField) (fields : List Text)
    (limit : Option Limit) (before after : Plan) : Type 0 where
  pub raw_sql : after.raw_sql ≡ before.raw_sql
  pub filtered : after.filters ≡ before.filters ++ filters
  pub sorted : after.sort ≡ before.sort ++ sort
  pub selected : after.fields ≡ before.fields ++ fields
  pub limited : after.limit ≡ limit

pub data Yields {A : Type 0} (Q : A → Type 0) : Result Error A → Type 0 where
  refuses : {e : Error} → Yields Q (err e)
  yields : {a : A} → Q a → Yields Q (ok a)

pub bind-Yields :
    {A B : Type 0} {P : A → Type 0} {Q : B → Type 0} (m : Result Error A) (f : A → Result Error B)
    → Yields P m
    → ((a : A) → P a → Yields Q (f a))
    → Yields Q (m >>= f)
bind-Yields (ok a) f (yields p) k = k a p
bind-Yields (err e) f refuses k = refuses

abbrev Any : {A : Type 0} → A → Type 0
Any _ = Unit

pub Any-Yields : {A : Type 0} (m : Result Error A) → Yields Any m
Any-Yields (ok a) = yields tt
Any-Yields (err e) = refuses

-- A part of an expression adds its comparisons and nothing else but time bounds.
abbrev pub AddsFilters : List Term → Plan → List Text × Plan → Type 0
AddsFilters ts before r = Adds (comparisons ts) [] [] before.limit before r.1

pub unchanged :
    (plan after : Plan)
    → after.raw_sql ≡ plan.raw_sql
    → after.filters ≡ plan.filters
    → after.sort ≡ plan.sort
    → after.fields ≡ plan.fields
    → after.limit ≡ plan.limit
    → Adds [] [] [] plan.limit plan after
unchanged plan after a b c d e = record {
  raw_sql = a;
  filtered = b ∙ sym (append-nil plan.filters);
  sorted = c ∙ sym (append-nil plan.sort);
  selected = d ∙ sym (append-nil plan.fields);
  limited = e;
}

compile_term-Yields :
    (parse_rfc3339 : Text → Option ℤ) (now : ℤ) (conj : Text) (t : Term) (parts : List Text)
    (plan : Plan)
    → Yields (AddsFilters (t ∷ []) plan) (compile_term parse_rfc3339 now conj t parts plan)
unfolding compile_term comparisons set_time_bound
compile_term-Yields parse_rfc3339 now conj (comparison f op v) parts plan =
    elim (Bool-cases (spells conj "or")) [
      | inl e ↦ rw e refuses
      | inr e ↦ rw e (
          yields (record {
            raw_sql = refl;
            filtered = refl;
            sorted = sym (append-nil plan.sort);
            selected = sym (append-nil plan.fields);
            limited = refl;
          }))
    ]
compile_term-Yields parse_rfc3339 now conj (time_bound kind e) parts plan =
    elim (Bool-cases (spells conj "or")) [
      | inl b ↦ rw b refuses
      | inr b ↦ rw b (
          bind-Yields (resolve_time_expr parse_rfc3339 e now) _
            (Any-Yields (resolve_time_expr parse_rfc3339 e now))
            λ t _. yields (unchanged plan (set_time_bound kind t plan) refl refl refl refl refl))
    ]
compile_term-Yields parse_rfc3339 now conj (free_text q) parts plan =
    yields (unchanged plan plan refl refl refl refl refl)

-- Additions one after the other.
pub Adds-trans :
    {fs gs : List FilterPredicate} {ss ts : List SortField} {ns ms : List Text} {l m : Option Limit}
    (a b c : Plan)
    → Adds fs ss ns l a b
    → Adds gs ts ms m b c
    → Adds (fs ++ gs) (ss ++ ts) (ns ++ ms) m a c
Adds-trans {fs} {gs} {ss} {ts} {ns} {ms} a b c p q = record {
  raw_sql = q.raw_sql ∙ p.raw_sql;
  filtered = q.filtered ∙ ap (λ x. x ++ gs) p.filtered ∙ append_assoc a.filters fs gs;
  sorted = q.sorted ∙ ap (λ x. x ++ ts) p.sorted ∙ append_assoc a.sort ss ts;
  selected = q.selected ∙ ap (λ x. x ++ ms) p.selected ∙ append_assoc a.fields ns ms;
  limited = q.limited;
}

comparisons_cons :
    (t : Term) (ts : List Term) → comparisons (t ∷ ts) ≡ comparisons (t ∷ []) ++ comparisons ts
unfolding comparisons
comparisons_cons (comparison f op v) ts = refl
comparisons_cons (time_bound k e) ts = refl
comparisons_cons (free_text q) ts = refl

no_terms : (plan : Plan) → Adds (comparisons []) [] [] plan.limit plan plan
unfolding comparisons
no_terms plan = unchanged plan plan refl refl refl refl refl

compile_terms-Yields :
    (parse_rfc3339 : Text → Option ℤ) (now : ℤ) (conjs : List Text) (i : ℕ) (ts : List Term)
    (parts : List Text) (plan : Plan)
    → Yields (AddsFilters ts plan) (compile_terms parse_rfc3339 now conjs i ts parts plan)
unfolding compile_terms
compile_terms-Yields parse_rfc3339 now conjs i [] parts plan = yields (no_terms plan)
compile_terms-Yields parse_rfc3339 now conjs i (t ∷ ts) parts plan =
    bind-Yields (conj_at conjs i) _ (Any-Yields (conj_at conjs i)) λ conj _.
      bind-Yields (compile_term parse_rfc3339 now conj t parts plan) _
        (compile_term-Yields parse_rfc3339 now conj t parts plan)
        λ r first.
          then_rest r first _ (compile_terms-Yields parse_rfc3339 now conjs (suc i) ts r.0 r.1)
  where
    then_rest :
        (r : List Text × Plan)
        → AddsFilters (t ∷ []) plan r
        → (m : Result Error (List Text × Plan)) → Yields (AddsFilters ts r.1) m
        → Yields (AddsFilters (t ∷ ts) plan) m
    then_rest r first (err e) refuses = refuses
    then_rest r first (ok s) (yields rest) =
        let both = Adds-trans plan r.1 s.1 first rest in
        yields (record {
          raw_sql = both.raw_sql;
          filtered = both.filtered ∙ ap (λ x. plan.filters ++ x) (sym (comparisons_cons t ts));
          sorted = both.sorted;
          selected = both.selected;
          limited = rest.limited ∙ first.limited;
        })

pub compile_bool_expr-Yields :
    (parse_rfc3339 : Text → Option ℤ) (now : ℤ) (e : BoolExpr) (plan : Plan)
    → Yields (AddsFilters e.terms plan) (compile_bool_expr parse_rfc3339 now e plan)
unfolding compile_bool_expr
compile_bool_expr-Yields parse_rfc3339 now e plan =
    compile_terms-Yields parse_rfc3339 now e.conjs 0 e.terms [] plan

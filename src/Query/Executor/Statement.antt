-- ===== src/Query/Executor/Statement.antt =====
-- Every statement that sql.go builds for a compiled pipe query keeps the user's text in quotes.
use cairnobs.Base.{
  ℕ, zero, suc, ◌+◌, ◌/◌, ◌%◌, Bool, true, false, List, [], ◌∷◌, ◌++◌, map, Option, none, some, ltb,
  if◌then◌else◌, all, Text, codes, digits_onto, decimal_text, All, All-append, ◌≡◌, refl, arith,
  Bool-cases, inl, inr,
}
use cairnobs.Base.Int.{ℤ}
use cairnobs.Query.Executor.Quoting.{quote_literal-IsClosed, column_expr-IsClosed}
use cairnobs.Query.Executor.Scanner.{
  is_plain, step, scan, IsClosed, IsClosed-append, IsClosed-empty, IsClosed-join, plain-IsClosed,
}
use cairnobs.Query.Executor.Sql.{
  quote_literal, column_expr, build_comparison_sql, select_of, select_clause, limit_clause,
  id_condition, time_conditions, build_where_clause, where_clause, group_by, group_clause,
  build_sql, default_row_limit,
}
use cairnobs.Query.Ir.{Aggregation, Limit, TimeRange, Plan, is_zero}
use cairnobs.Query.Parser.WellFormed.{IsName}
use cairnobs.Query.Planner.Sound.{IsFilter, IsAggregation, IsPlan}
use cairnobs.Query.Executor.Injection.{
  build_comparison_sql-IsClosed, All-map, comma-IsClosed, select_of-IsClosed, order_by-IsClosed,
}

digit_code-is_plain :
    (d : ℕ) (rest : Text) → all is_plain rest ≡ true → all is_plain ((b'0' + d % 10) ∷ rest) ≡ true
unfolding all is_plain
digit_code-is_plain d rest h = ground arith

digits_onto-plain :
    (f n : ℕ) (rest : Text) → all is_plain rest ≡ true → all is_plain (digits_onto f n rest) ≡ true
unfolding digits_onto
digits_onto-plain zero n rest h = h
digits_onto-plain (suc f) n rest h =
    let last = digit_code-is_plain n rest h in
    elim (Bool-cases (ltb n 10)) [
      | inl e ↦ rw e last
      | inr e ↦ rw e (digits_onto-plain f (n / 10) ((b'0' + n % 10) ∷ rest) last)
    ]

decimal_text-IsClosed : (n : ℕ) → IsClosed (decimal_text n)
unfolding decimal_text
decimal_text-IsClosed n = plain-IsClosed _ (digits_onto-plain (suc n) n [] (unfold all in refl))

limit_clause-IsClosed : (l : Option Limit) (a : Option Aggregation) → IsClosed (limit_clause l a)
unfolding limit_clause scan step is_plain
limit_clause-IsClosed (some l) a =
    IsClosed-append (codes " LIMIT ") _ (record { scanned = refl }) (decimal_text-IsClosed l.n)
limit_clause-IsClosed none none =
    IsClosed-append (codes " LIMIT ") _ (record { scanned = refl })
      (decimal_text-IsClosed default_row_limit)
limit_clause-IsClosed none (some _) = IsClosed-empty

every : {A : Type 0} (P : A → Type 0) → ((a : A) → P a) → (xs : List A) → All P xs
every P h [] = tt
every P h (x ∷ xs) = (h x, every P h xs)

id_condition-IsClosed : (ids : List Text) → All IsClosed (id_condition ids)
unfolding id_condition scan step is_plain
id_condition-IsClosed [] = tt
id_condition-IsClosed (i ∷ is) = (
  IsClosed-append (codes "record_id IN (") _ (record { scanned = refl })
      (IsClosed-append _ (codes ")")
        (IsClosed-join (codes ",") _ (record { scanned = refl })
          (All-map (λ _. Unit {0}) IsClosed quote_literal (λ s _. quote_literal-IsClosed s) (i ∷ is)
            (every (λ _. Unit {0}) (λ _. tt) (i ∷ is))))
        (record { scanned = refl })),
  tt,
)

bound-IsClosed :
    (front : Text) (t : Text) (b : Bool)
    → IsClosed front
    → All IsClosed (if b then [] else (front ++ quote_literal t) ∷ [])
bound-IsClosed front t true h = tt
bound-IsClosed front t false h = (IsClosed-append front _ h (quote_literal-IsClosed t), tt)

time_conditions-IsClosed :
    (format_time : ℤ → Text) (r : Option TimeRange) → All IsClosed (time_conditions format_time r)
unfolding time_conditions scan step is_plain
time_conditions-IsClosed format_time none = tt
time_conditions-IsClosed format_time (some r) =
    All-append IsClosed _ _
      (bound-IsClosed (codes "`timestamp` >= ") (format_time r.from) (is_zero r.from)
        (record { scanned = refl }))
      (bound-IsClosed (codes "`timestamp` <= ") (format_time r.to) (is_zero r.to)
        (record { scanned = refl }))

where_clause-IsClosed : (t : Text) → IsClosed t → IsClosed (where_clause t)
unfolding where_clause scan step is_plain
where_clause-IsClosed [] h = h
where_clause-IsClosed (c ∷ cs) h = IsClosed-append (codes " WHERE ") _ (record { scanned = refl }) h

build_where_clause-IsClosed :
    (format_time : ℤ → Text) (plan : Plan) (ids : List Text)
    → IsPlan plan
    → IsClosed (build_where_clause format_time plan ids)
unfolding build_where_clause scan step is_plain
build_where_clause-IsClosed format_time plan ids w =
    IsClosed-join (codes " AND ") _ (record { scanned = refl })
      (All-append IsClosed (id_condition ids) _ (id_condition-IsClosed ids) (
        All-append IsClosed (map build_comparison_sql plan.filters) _
          (All-map IsFilter IsClosed build_comparison_sql build_comparison_sql-IsClosed plan.filters
            w.filters)
          (time_conditions-IsClosed format_time plan.time_range)))

group_clause-IsClosed : (a : Option Aggregation) → IsAggregation a → IsClosed (group_clause a)
unfolding group_clause
group_clause-IsClosed none h = IsClosed-empty
group_clause-IsClosed (some a) h = grouped a.group_by h.2
  where
    grouped : (gs : List Text) → All IsName gs → IsClosed (group_by gs)
    grouped [] n = unfold group_by in IsClosed-empty
    grouped (g ∷ gs) n =
        unfold group_by scan step is_plain in
        IsClosed-append (codes " GROUP BY ") _ (record { scanned = refl })
          (IsClosed-join (codes ", ") _ comma-IsClosed
            (All-map IsName IsClosed column_expr column_expr-IsClosed (g ∷ gs) n))

-- The statement built for a plan of a pipe query, with any record ids and any rendering of times,
-- begins and ends outside quotes, and outside quotes it has no semicolon, no comment and no quote
-- character: the texts of the query cannot leave their literals.
pub build_sql-IsClosed :
    (format_time : ℤ → Text) (plan : Plan) (ids : List Text)
    → IsPlan plan
    → IsClosed (build_sql format_time plan ids)
unfolding build_sql select_clause scan step is_plain
build_sql-IsClosed format_time plan ids w =
    IsClosed-append (codes "SELECT ") _ (record { scanned = refl })
      (IsClosed-append (select_of plan.aggregation plan.fields) _
        (select_of-IsClosed plan.aggregation plan.fields w.aggregation w.fields)
        (IsClosed-append (codes " FROM logs") _ (record { scanned = refl })
          (IsClosed-append _ _
            (where_clause-IsClosed _ (build_where_clause-IsClosed format_time plan ids w))
            (IsClosed-append _ _ (group_clause-IsClosed plan.aggregation w.aggregation) (
              IsClosed-append _ _ (order_by-IsClosed plan w)
                (limit_clause-IsClosed plan.limit plan.aggregation))))))

-- ===== src/Query/Executor/Injection.antt =====
-- The clauses that sql.go writes for columns, aggregations and orders keep quotes closed.
use cairnobs.Base.{
  Bool, true, false, not, ◌&&◌, List, [], ◌∷◌, ◌++◌, map, Option, none, some, if◌then◌else◌, is_nil,
  any, Text, codes, text_eq, All, All-append, ◌≡◌, refl, arith, Bool-cases, inl, inr,
}
use cairnobs.Query.Executor.Quoting.{
  quote_literal-IsClosed, quote_ident-IsClosed, column_expr-IsClosed, comparator-IsClosed,
  agg_func-IsUpperClosed, numeric-IsClosed,
}
use cairnobs.Query.Executor.Scanner.{
  is_plain, step, scan, IsClosed, IsClosed-append, IsClosed-empty, IsClosed-join,
}
use cairnobs.Query.Executor.Sql.{
  is_top_level, quote_ident, quote_literal, column_expr, is_numeric_literal, build_comparison_sql,
  agg_expr, labelled, group_column, agg_column, select_fields, select_of, has_alias, sort_column_of,
  sort_column_expr, sort_item, is_tail, is_none, order_by,
}
use cairnobs.Query.Ir.{FilterPredicate, AggFunc, Aggregation, SortField, Plan}
use cairnobs.Query.Lexer.Tokens.{is_name}
use cairnobs.Query.Parser.Terms.{spells}
use cairnobs.Query.Parser.WellFormed.{IsName}
use cairnobs.Query.Planner.Sound.{IsFilter, IsAggFunc, IsAggregation, IsPlan}

pub build_comparison_sql-IsClosed :
    (f : FilterPredicate) → IsFilter f → IsClosed (build_comparison_sql f)
unfolding build_comparison_sql scan step is_plain
build_comparison_sql-IsClosed f h =
    let column = column_expr-IsClosed f.field h.0 in
    let op = comparator-IsClosed f.op h.1 in
    elim (Bool-cases (not (is_top_level f.field) && is_numeric_literal f.value)) [
      | inl e ↦ rw e (
          IsClosed-append (codes "toFloat64OrZero(") _ (record { scanned = refl })
            (IsClosed-append (column_expr f.field) _ column (
              IsClosed-append (codes ") ") _ (record { scanned = refl })
                (IsClosed-append f.op _ op (
                  IsClosed-append (codes " ") f.value (record { scanned = refl })
                    (numeric-IsClosed f.value (ground arith)))))))
      | inr e ↦ rw e (
          IsClosed-append (column_expr f.field) _ column (
            IsClosed-append (codes " ") _ (record { scanned = refl })
              (IsClosed-append f.op _ op (
                IsClosed-append (codes " ") (quote_literal f.value) (record { scanned = refl })
                  (quote_literal-IsClosed f.value)))))
    ]

cast_of : Text → Text
cast_of field =
    if not (is_top_level field)
    then codes "toFloat64OrZero(" ++ (column_expr field ++ codes ")")
    else column_expr field

cast_of-IsClosed : (field : Text) → is_name field ≡ true → IsClosed (cast_of field)
unfolding cast_of scan step is_plain
cast_of-IsClosed field h = elim (Bool-cases (not (is_top_level field))) [
  | inl e ↦ rw e (
      IsClosed-append (codes "toFloat64OrZero(") _ (record { scanned = refl })
        (IsClosed-append (column_expr field) (codes ")") (column_expr-IsClosed field h)
          (record { scanned = refl })))
  | inr e ↦ rw e (column_expr-IsClosed field h)
]

agg_expr-IsClosed : (f : AggFunc) → IsAggFunc f → IsClosed (agg_expr f)
unfolding agg_expr cast_of scan step is_plain
agg_expr-IsClosed f h = elim (Bool-cases (spells f.func "count")) [
  | inl e ↦ rw e (record { scanned = refl })
  | inr e ↦ rw e (
      IsClosed-append _ _ (agg_func-IsUpperClosed f.func h.0) (
        IsClosed-append (codes "(") _ (record { scanned = refl })
          (IsClosed-append (cast_of f.field) (codes ")") (cast_of-IsClosed f.field (ground arith))
            (record { scanned = refl }))))
]

labelled-IsClosed :
    (expr name : Text) → IsClosed expr → is_name name ≡ true → IsClosed (labelled expr name)
unfolding scan step is_plain
labelled-IsClosed expr name h n = IsClosed-append expr _ h (
    IsClosed-append (codes " AS ") (quote_ident name) (record { scanned = refl })
      (quote_ident-IsClosed name n))

-- A predicate on each element of a mapped list.
pub All-map :
    {A B : Type 0} (P : A → Type 0) (Q : B → Type 0) (f : A → B)
    → ((a : A) → P a → Q (f a))
    → (xs : List A) → All P xs
    → All Q (map f xs)
All-map P Q f g [] h = tt
All-map P Q f g (x ∷ xs) h = (g x h.0, All-map P Q f g xs h.1)

pub comma-IsClosed : IsClosed (codes ", ")
unfolding scan step is_plain
comma-IsClosed = record { scanned = refl }

group_columns : (gs : List Text) → All IsName gs → All IsClosed (map group_column gs)
group_columns =
    All-map IsName IsClosed group_column
      (λ g h. labelled-IsClosed (column_expr g) g (column_expr-IsClosed g h) h)

agg_columns : (fs : List AggFunc) → All IsAggFunc fs → All IsClosed (map agg_column fs)
agg_columns =
    All-map IsAggFunc IsClosed agg_column
      (λ f h. labelled-IsClosed (agg_expr f) f.alias (agg_expr-IsClosed f h) h.2)

pub select_of-IsClosed :
    (a : Option Aggregation) (fields : List Text)
    → IsAggregation a
    → All IsName fields
    → IsClosed (select_of a fields)
unfolding select_of select_fields scan step is_plain
select_of-IsClosed (some a) fields h n = IsClosed-join (codes ", ") _ comma-IsClosed (
    All-append IsClosed (map group_column a.group_by) (map agg_column a.funcs)
      (group_columns a.group_by h.2) (agg_columns a.funcs h.1))
select_of-IsClosed none [] h n = record { scanned = refl }
select_of-IsClosed none (f ∷ fs) h n =
    IsClosed-join (codes ", ") _ comma-IsClosed (group_columns (f ∷ fs) n)

sort_column_of-IsClosed :
    (a : Option Aggregation) (field : Text)
    → is_name field ≡ true
    → IsClosed (sort_column_of a field)
unfolding sort_column_of
sort_column_of-IsClosed none field h = column_expr-IsClosed field h
sort_column_of-IsClosed (some a) field h = elim (Bool-cases (has_alias field a.funcs)) [
  | inl e ↦ rw e (quote_ident-IsClosed field h)
  | inr e ↦ rw e (elim (Bool-cases (any (λ g. text_eq g field) a.group_by)) [
    | inl e' ↦ rw e' (column_expr-IsClosed field h)
    | inr e' ↦ rw e' (column_expr-IsClosed field h)
  ])
]

direction-IsClosed : (desc : Bool) → IsClosed (if desc then codes "DESC" else codes "ASC")
unfolding scan step is_plain
direction-IsClosed true = record { scanned = refl }
direction-IsClosed false = record { scanned = refl }

sort_item-IsClosed :
    (plan : Plan) (s : SortField) → is_name s.field ≡ true → IsClosed (sort_item plan s)
unfolding sort_column_expr scan step is_plain
sort_item-IsClosed plan s h =
    IsClosed-append _ _ (sort_column_of-IsClosed plan.aggregation s.field h)
      (IsClosed-append (codes " ") _ (record { scanned = refl }) (direction-IsClosed s.desc))

pub order_by-IsClosed : (plan : Plan) → IsPlan plan → IsClosed (order_by plan)
unfolding order_by scan step is_plain
order_by-IsClosed plan w = elim (Bool-cases (not (is_nil plan.sort))) [
  | inl e ↦ rw e (
      IsClosed-append (codes " ORDER BY ") _ (record { scanned = refl })
        (IsClosed-join (codes ", ") _ comma-IsClosed (
          All-map (λ (s : SortField). IsName s.field) IsClosed (sort_item plan)
            (sort_item-IsClosed plan) plan.sort w.sort)))
  | inr e ↦ rw e (elim (Bool-cases (is_tail plan.limit)) [
    | inl e' ↦ rw e' (record { scanned = refl })
    | inr e' ↦ rw e' (elim (Bool-cases (is_none plan.aggregation)) [
      | inl e'' ↦ rw e'' (record { scanned = refl })
      | inr e'' ↦ rw e'' IsClosed-empty
    ])
  ])
]

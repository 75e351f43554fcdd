-- ===== src/Query/Executor/Sql.antt =====
-- api/querylang/executor/sql.go. `formatClickHouseDateTime64`, a call of `time.Format`, is the
-- parameter `format_time`.
use cairnobs.Base.{
  ℕ, Bool, true, false, not, ◌&&◌, ◌||◌, List, [], ◌∷◌, ◌++◌, map, Option, none, some, ◌==◌,
  if◌then◌else◌, take_while, drop_while, any, all, Text, codes, text_eq, is_empty, is_nil, join,
  to_upper, decimal_text,
}
use cairnobs.Base.Int.{ℤ}
use cairnobs.Query.Ir.{
  FilterPredicate, AggFunc, Aggregation, SortField, Limit, TimeRange, Plan, is_zero,
}
use cairnobs.Query.Lexer.{is_digit}
use cairnobs.Query.Parser.Terms.{spells}

abbrev pub default_row_limit : ℕ
default_row_limit = 100

unfoldable pub is_top_level : Text → Bool
is_top_level f =
    spells f "timestamp"
    || spells f "host"
    || spells f "service"
    || spells f "severity"
    || spells f "message"
    || spells f "record_id"

-- strings.ReplaceAll(name, "`", "``")
unfoldable pub double_ticks : Text → Text
double_ticks [] = []
double_ticks (c ∷ cs) =
    let rest = double_ticks cs in if c == b'`' then b'`' ∷ b'`' ∷ rest else c ∷ rest

unfoldable pub quote_ident : Text → Text
quote_ident name = b'`' ∷ (double_ticks name ++ b'`' ∷ [])

-- The loop of `quoteLiteral`.
unfoldable pub escape_literal : Text → Text
escape_literal [] = []
escape_literal (c ∷ cs) =
    let rest = escape_literal cs in
    if c == b'\\'
    then b'\\' ∷ b'\\' ∷ rest
    else if c == b'\''
    then b'\\' ∷ b'\'' ∷ rest
    else c ∷ rest

unfoldable pub quote_literal : Text → Text
quote_literal s = b'\'' ∷ (escape_literal s ++ b'\'' ∷ [])

unfoldable pub column_expr : Text → Text
column_expr field =
    if is_top_level field
    then quote_ident field
    else codes "attributes[" ++ (quote_literal field ++ codes "]")

-- `(\.\d+)?$`
unfoldable pub ends_number : Text → Bool
ends_number [] = true
ends_number (c ∷ cs) = c == b'.' && (not (is_empty cs) && all is_digit cs)

unfoldable pub is_unsigned_literal : Text → Bool
is_unsigned_literal s =
    not (is_empty (take_while is_digit s)) && ends_number (drop_while is_digit s)

-- `^-?\d+(\.\d+)?$`
unfoldable pub is_numeric_literal : Text → Bool
is_numeric_literal [] = false
is_numeric_literal (c ∷ cs) =
    if c == b'-' then is_unsigned_literal cs else is_unsigned_literal (c ∷ cs)

unfoldable pub build_comparison_sql : FilterPredicate → Text
build_comparison_sql f =
    if not (is_top_level f.field) && is_numeric_literal f.value
    then codes "toFloat64OrZero("
      ++ (column_expr f.field ++ (codes ") " ++ (f.op ++ (codes " " ++ f.value))))
    else column_expr f.field ++ (codes " " ++ (f.op ++ (codes " " ++ quote_literal f.value)))

unfoldable pub agg_expr : AggFunc → Text
agg_expr f =
    if spells f.func "count"
    then codes "count()"
    else let col = column_expr f.field in
      let cast =
        if not (is_top_level f.field)
        then codes "toFloat64OrZero(" ++ (col ++ codes ")")
        else col in
      map to_upper f.func ++ (codes "(" ++ (cast ++ codes ")"))

abbrev pub labelled : Text → Text → Text
labelled expr name = expr ++ (codes " AS " ++ quote_ident name)

abbrev pub group_column : Text → Text
group_column g = labelled (column_expr g) g

abbrev pub agg_column : AggFunc → Text
agg_column f = labelled (agg_expr f) f.alias

unfoldable pub select_fields : List Text → Text
select_fields [] = codes "*"
select_fields (f ∷ fs) = join (codes ", ") (map group_column (f ∷ fs))

unfoldable pub select_of : Option Aggregation → List Text → Text
select_of (some a) fields =
    join (codes ", ") (map group_column a.group_by ++ map agg_column a.funcs)
select_of none fields = select_fields fields

unfoldable pub select_clause : Plan → Text
select_clause plan = select_of plan.aggregation plan.fields

abbrev pub has_alias : Text → List AggFunc → Bool
has_alias field fs = any (λ f. text_eq f.alias field) fs

unfoldable pub sort_column_of : Option Aggregation → Text → Text
sort_column_of none field = column_expr field
sort_column_of (some a) field =
    if has_alias field a.funcs
    then quote_ident field
    else if any (λ g. text_eq g field) a.group_by
    then column_expr field
    else column_expr field

unfoldable pub sort_column_expr : Plan → Text → Text
sort_column_expr plan field = sort_column_of plan.aggregation field

abbrev pub sort_item : Plan → SortField → Text
sort_item plan s =
    sort_column_expr plan s.field ++ (codes " " ++ (if s.desc then codes "DESC" else codes "ASC"))

abbrev pub is_tail : Option Limit → Bool
is_tail none = false
is_tail (some l) = l.tail

abbrev pub is_none : {A : Type 0} → Option A → Bool
is_none none = true
is_none (some _) = false

unfoldable pub order_by : Plan → Text
order_by plan =
    if not (is_nil plan.sort)
    then codes " ORDER BY " ++ join (codes ", ") (map (sort_item plan) plan.sort)
    else if is_tail plan.limit
    then codes " ORDER BY `timestamp` ASC"
    else if is_none plan.aggregation
    then codes " ORDER BY `timestamp` DESC"
    else []

unfoldable pub limit_clause : Option Limit → Option Aggregation → Text
limit_clause (some l) agg = codes " LIMIT " ++ decimal_text l.n
limit_clause none none = codes " LIMIT " ++ decimal_text default_row_limit
limit_clause none (some _) = []

unfoldable pub id_condition : List Text → List Text
id_condition [] = []
id_condition (i ∷ is) =
    (codes "record_id IN (" ++ (join (codes ",") (map quote_literal (i ∷ is)) ++ codes ")")) ∷ []

unfoldable pub time_conditions : (ℤ → Text) → Option TimeRange → List Text
time_conditions format_time none = []
time_conditions format_time (some r) =
    (if is_zero r.from
      then []
      else (codes "`timestamp` >= " ++ quote_literal (format_time r.from)) ∷ [])
    ++ (if is_zero r.to
        then []
        else (codes "`timestamp` <= " ++ quote_literal (format_time r.to)) ∷ [])

unfoldable pub build_where_clause : (ℤ → Text) → Plan → List Text → Text
build_where_clause format_time plan ids = join (codes " AND ") (
    id_condition ids
    ++ (map build_comparison_sql plan.filters ++ time_conditions format_time plan.time_range))

unfoldable pub where_clause : Text → Text
where_clause [] = []
where_clause (c ∷ cs) = codes " WHERE " ++ (c ∷ cs)

unfoldable pub group_by : List Text → Text
group_by [] = []
group_by (g ∷ gs) = codes " GROUP BY " ++ join (codes ", ") (map column_expr (g ∷ gs))

unfoldable pub group_clause : Option Aggregation → Text
group_clause none = []
group_clause (some a) = group_by a.group_by

unfoldable pub build_sql : (ℤ → Text) → Plan → List Text → Text
build_sql format_time plan ids =
    codes "SELECT "
    ++ (select_clause plan
        ++ (codes " FROM logs"
            ++ (where_clause (build_where_clause format_time plan ids)
                ++ (group_clause plan.aggregation
                    ++ (order_by plan ++ limit_clause plan.limit plan.aggregation)))))

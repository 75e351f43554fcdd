-- ===== src/Query/Ir.antt =====
-- The plan that both syntaxes compile to (api/internal/querylang/ir/ir.go). A time is the number
-- of nanoseconds from Go's zero time, so that `IsZero` is the test for 0.
use cairnobs.Base.{ℕ, Bool, List, [], Option, none, Text}
use cairnobs.Base.Int.{ℤ, pos, eqb_ℤ}

pub record TextPredicate : Type 0 where
  pub query : Text

pub record FilterPredicate : Type 0 where
  pub field : Text
  pub op : Text
  pub value : Text

pub record AggFunc : Type 0 where
  pub func : Text
  pub field : Text
  pub alias : Text

pub record Aggregation : Type 0 where
  pub funcs : List AggFunc
  pub group_by : List Text

pub record SortField : Type 0 where
  pub field : Text
  pub desc : Bool

pub record Limit : Type 0 where
  pub n : ℕ
  pub tail : Bool

pub record TimeRange : Type 0 where
  pub from : ℤ
  pub to : ℤ

pub record Plan : Type 0 where
  pub raw_sql : Text
  pub text_search : List TextPredicate
  pub filters : List FilterPredicate
  pub time_range : Option TimeRange
  pub aggregation : Option Aggregation
  pub sort : List SortField
  pub fields : List Text
  pub limit : Option Limit

-- `&ir.Plan{}`
abbrev pub empty_plan : Plan
empty_plan = record {
  raw_sql = [];
  text_search = [];
  filters = [];
  time_range = none;
  aggregation = none;
  sort = [];
  fields = [];
  limit = none;
}

-- time.Time.IsZero
abbrev pub is_zero : ℤ → Bool
is_zero t = eqb_ℤ t (pos 0)

-- ===== src/Query/Ast.antt =====
-- The parsed tree of a pipe query (api/internal/querylang/ast/ast.go).
use cairnobs.Base.{ℕ, Bool, List, Text}
use cairnobs.Base.Int.{ℤ}

pub record TimeExpr : Type 0 where
  pub absolute : Text
  pub is_relative : Bool
  pub relative_sign : ℤ
  pub relative_n : ℕ
  pub relative_unit : Text

pub data Term : Type 0 where
  comparison : (field op value : Text) → Term
  time_bound : (kind : Text) (expr : TimeExpr) → Term
  free_text : (query : Text) → Term

pub record BoolExpr : Type 0 where
  pub terms : List Term
  pub conjs : List Text

pub record AggCall : Type 0 where
  pub func : Text
  pub field : Text
  pub alias : Text

pub record SortField : Type 0 where
  pub field : Text
  pub desc : Bool

pub data PipeStage : Type 0 where
  where_stage : BoolExpr → PipeStage
  stats_stage : (aggs : List AggCall) (by : List Text) → PipeStage
  sort_stage : List SortField → PipeStage
  fields_stage : List Text → PipeStage
  head_stage : (n : ℕ) (has_n : Bool) → PipeStage
  tail_stage : (n : ℕ) (has_n : Bool) → PipeStage

pub record Query : Type 0 where
  pub base : BoolExpr
  pub pipes : List PipeStage

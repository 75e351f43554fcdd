-- ===== src/Query.antt =====
-- The query language: text to tokens, to a tree, to a plan, to ClickHouse SQL
-- (api/internal/querylang and api/querylang/executor).
pub mod Lexer
pub mod Ast
pub mod Parser
pub mod Ir
pub mod Planner
pub mod Executor

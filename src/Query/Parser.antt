-- ===== src/Query/Parser.antt =====
-- The recursive-descent parser (api/internal/querylang/parser/parser.go).
pub mod State
pub mod Terms
pub mod Stages
pub mod Post
pub mod WellFormed
pub mod TermsPost
pub mod BoolExprPost
pub mod StagesPost
pub mod PipesPost
pub mod Total

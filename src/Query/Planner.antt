-- ===== src/Query/Planner.antt =====
-- From a query text to a plan (api/internal/querylang/planner/planner.go).
pub mod Guard
pub mod Compile
pub mod Sound
pub mod Additions
pub mod Reads
pub mod Accepted
pub mod Total

-- ===== src/Retention.antt =====
-- The deletion of logs by age, which the agents' retention settings limit (api/logretention).
pub mod Floors
pub mod Targets
pub mod Handlers
pub mod Safe
pub mod Kept
pub mod Protected
pub mod Asked
pub mod Bounds
pub mod Members
pub mod Exact

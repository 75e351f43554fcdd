-- ===== src/Alerting.antt =====
-- The alert evaluator (alerting/internal/evaluator, with the two writes of
-- alerting/internal/rulestore that it makes).
pub mod Condition
pub mod Transitions
pub mod Evaluator
pub mod Invariant
pub mod Notify
pub mod Failures
pub mod Debounce
pub mod Delivery
pub mod Retries
pub mod Liveness

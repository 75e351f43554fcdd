-- ===== src/Audit.antt =====
-- The hash-chained audit log (enterprise/internal/audit).
pub mod Log
pub mod Chain
pub mod Tamper

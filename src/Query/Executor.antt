-- ===== src/Query/Executor.antt =====
-- From a plan to ClickHouse SQL, and its execution (api/querylang/executor).
pub mod Sql
pub mod Scanner
pub mod Quoting
pub mod Injection
pub mod Statement
pub mod Execute

-- ===== src/Lib.antt =====
-- Cairn OBS is a log and observability platform. This library models the Go code that decides what
-- a query means, when an alert fires, what the audit log proves and who may call what.
--
-- Queries. A text is split into tokens, parsed to a tree and compiled to a plan; the executor turns
-- a plan into one ClickHouse statement, after asking the search service for record ids where the
-- query has free text. The alert evaluator, the dashboards and the HTTP API all run queries so.
--   api/internal/querylang/lexer/lexer.go        Query/Lexer (proofs: Lexer/Splits, Lexer/Tokens)
--   api/internal/querylang/ast/ast.go            Query/Ast
--   api/internal/querylang/ir/ir.go              Query/Ir
--   api/internal/querylang/parser/parser.go      Query/Parser/State, Terms, Stages (the others
--                                                there are proofs)
--   api/internal/querylang/planner/planner.go    Query/Planner/Guard, Compile (proofs: Sound,
--                                                Total, Additions, Reads, Accepted)
--   api/querylang/executor/sql.go                Query/Executor/Sql (proofs: Quoting, Injection,
--                                                Statement, over Scanner, a reading of quotes)
--   api/querylang/executor/executor.go           Query/Executor/Execute
-- Alerts. The evaluator runs each due rule's query, decides its condition, and moves the rule
-- between ok, pending and firing; the new state and the notification are one transaction.
--   alerting/internal/evaluator/condition.go     Alerting/Condition
--   alerting/internal/evaluator/transitions.go   Alerting/Transitions (proofs: Debounce)
--   alerting/internal/evaluator/evaluator.go     Alerting/Evaluator (proofs: Invariant, Notify,
--                                                Failures)
--   alerting/internal/rulestore/store.go         Alerting/Evaluator: `apply_transition`, `record_error`
--   alerting/internal/delivery/webhook.go        Alerting/Delivery (proofs: Retries, Liveness)
-- Audit. Each row of the audit log carries a hash of its fields and of the row before it.
--   enterprise/internal/audit/audit.go           Audit/Log (proofs: Chain, Tamper)
--   enterprise/internal/audit/verify.go          Audit/Log: `verify_chain`
-- Access.
--   api/authz/authz.go, middleware.go            Access/Roles, Access/Route
--   api/dashboards/permissions.go                Access/Roles: `valid_grant_role`
--   api/localauth/ratelimit.go                   Access/Limiter
--   api/ai/costguard/costguard.go                Access/Cost
-- Local accounts. The users of a deployment without single sign-on, with their roles and sessions.
--   api/localauth/store.go, authorizer.go        Accounts/Store (proofs: Invariant, Members,
--                                                Promotions, Found)
--   api/localauth/handler.go                     Accounts/Handlers, Server (proofs: Keeps, Sound)
-- Agents. Their remote configuration and the commands that wait for them stand in one table, which
-- the API writes and the ingest service reads when an agent checks in.
--   api/agents/store.go                          Agents/Override, Store (proofs: Current, Commands)
--   api/agents/handler.go                        Agents/Path, Override, Handlers (proofs:
--                                                ServiceDays, Keeps, Gates, Valid)
--   ingest/internal/agentregistry                Agents/Registry
-- Retention. An admin deletes logs by age; the days that the agents' configuration keeps a host's
-- logs stop everyone but an owner.
--   api/logretention/agent_floor.go              Retention/Floors (proofs: Bounds, Kept)
--   api/logretention/handler.go                  Retention/Targets, Handlers (proofs: Safe,
--                                                Protected, Asked, Members, Exact)
--   api/logretention/store.go                    Retention/Handlers: `is_old` and its users
-- Base holds what they share, and Tests the runs on fixed inputs.
--
-- A function has the name of the Go function in snake case; a part of a Go function that stands
-- alone in the model has a name of its own and a comment where the name does not say it. State is
-- passed explicitly: the parser is a function from a parser state to a result with the next state.
--
-- A handler (Base/Handler) reads and writes its service's tables and either goes on with a value or
-- has answered, as a Go handler that wrote an answer and returned; Base/Triple has the rules to
-- prove that one keeps an invariant. A table is the list of its rows, a statement a function on it
-- (Base/Rows), and a transaction one step. Requests run one after the other. Each call of a store
-- may fail: a request carries which of them do, with what it reads of the clock and of random
-- numbers.
--
-- Texts are lists of character codes, as the lexer's []rune; `len` of a password or a time zone counts
-- the bytes of its UTF-8 form. The parser's loops take as fuel one more than the length of
-- the query, which is more than its tokens: Query/Parser/Total proves that it never runs out. A
-- time is the number of nanoseconds since Go's zero time, as an integer, and the difference of
-- two times is not cut to 64 bits; a duration computed from an offset or from minutes wraps as an
-- int64 does. `ForMinutes` and the sizes of limits are natural numbers. The limiter's times are
-- natural numbers.
--
-- Parameters stand for code from elsewhere: time.Parse and time.Format, the comparisons of float64,
-- SHA-256 with its hex encoding, what Postgres gives back of a JSON text, the clients of ClickHouse
-- and of the search service, the rendering of a notification, what an attempt to deliver it comes
-- to, whether a transaction commits, and for local accounts bcrypt, random tokens, new ids and
-- time.LoadLocation. The JSON column of the overrides gives an override back as it was written.
--
-- Not modelled: the HTTP and gRPC glue and the SQL stores of the components that are not named
-- above, cookies, the order of listings, the listing of hosts in front of a deletion, requests and
-- workers that run at the same time, start-up and configuration, the worker pool of the evaluator,
-- the payloads of notifications, dashboards, ingest but for the check-in, the enterprise login and
-- tenants, the operator, and the parts in Rust and TypeScript.
pub mod Base
pub mod Query
pub mod Alerting
pub mod Audit
pub mod Access
pub mod Accounts
pub mod Agents
pub mod Retention
pub mod Tests

-- ===== src/Access.antt =====
-- Who may do what, and how often: roles, the login limiter and the cost guard (api/authz,
-- api/localauth/ratelimit.go, api/ai/costguard, api/dashboards/permissions.go).
pub mod Roles
pub mod Limiter
pub mod Cost
pub mod Route

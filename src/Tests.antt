-- ===== src/Tests.antt =====
-- Runs of the model on fixed inputs, and the theorems applied to them.
mod Access
mod Accounts
mod Agents
mod Alerting
mod Audit
mod Delivery
mod Query
mod Retention
mod Runs

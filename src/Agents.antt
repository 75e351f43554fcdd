-- ===== src/Agents.antt =====
-- Remote configuration of agents and their commands (api/agents, ingest/internal/agentregistry).
pub mod Path
pub mod Override
pub mod Store
pub mod Registry
pub mod Handlers
pub mod ServiceDays
pub mod Current
pub mod Keeps
pub mod Gates
pub mod Commands
pub mod Valid

-- ===== src/Accounts.antt =====
-- Local accounts: users, their roles and their sessions (api/localauth).
pub mod Store
pub mod Handlers
pub mod Server
pub mod Invariant
pub mod Members
pub mod Promotions
pub mod Found
pub mod Keeps
pub mod Sound

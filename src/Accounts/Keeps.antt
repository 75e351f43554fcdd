-- ===== src/Accounts/Keeps.antt =====
-- The handlers of local accounts keep the tables sound, in three groups.
pub mod Sessions
pub mod Users
pub mod Passwords

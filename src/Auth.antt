-- ===== src/Auth.antt =====
-- Users and sessions: src/models/users.rs, src/models/refresh_tokens.rs, src/models/admin_logs.rs
-- and src/controllers/auth.rs.
pub mod Secrets
pub mod Lookup
pub mod Logs
pub mod Users
pub mod Tokens
pub mod Login
pub mod Accounts
pub mod Departments
pub mod Valid
pub mod Rotation
pub mod Lockout
pub mod Entry
pub mod Switching

-- ===== src/Entities.antt =====
-- The rows of the database: src/models/_entities, one record for each `Model`.
pub mod Access
pub mod Orders
pub mod Payment
pub mod Limits
pub mod Settings
pub mod Sessions
pub mod Places

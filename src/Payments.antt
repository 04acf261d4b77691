-- ===== src/Payments.antt =====
-- src/controllers/admin/payments.rs
pub mod Amount
pub mod Params
pub mod Records
pub mod Validate
pub mod Visible
pub mod Channels
pub mod Orders
pub mod Refunds
pub mod Moves

-- ===== src/WorkOrders.antt =====
-- src/controllers/admin/work_orders.rs
pub mod Params
pub mod Records
pub mod Validate
pub mod Visible
pub mod Children
pub mod Orders
pub mod Life

-- ===== src/Rbac.antt =====
-- src/models/rbac.rs, and `authorize` of src/controllers/admin/mod.rs.
pub mod Ids
pub mod Roles
pub mod Grants
pub mod Authorize
pub mod Check
pub mod Links
pub mod Scope
pub mod Justified
pub mod Scoped
pub mod Permissions
pub mod Visible

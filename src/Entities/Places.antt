-- ===== src/Entities/Places.antt =====
-- The rows of src/models/_entities/departments.rs and tenants.rs.
use rust_template.Base.{ℕ, String, Bool, Option}

pub record Department : Type 0 where
  pub created_at : ℕ
  pub updated_at : ℕ
  pub id : ℕ
  pub tenant_id : ℕ
  pub parent_id : Option ℕ
  pub name : String
  pub code : String
  pub description : Option String
  pub sort_order : ℕ
  pub enabled : Bool
  pub is_system : Bool

pub record Tenant : Type 0 where
  pub created_at : ℕ
  pub updated_at : ℕ
  pub id : ℕ
  pub name : String
  pub code : String
  pub description : Option String
  pub enabled : Bool
  pub is_system : Bool
  pub departments_enabled : Bool

-- ===== src/Entities/Settings.antt =====
-- The row of src/models/_entities/system_settings.rs.
use rust_template.Base.{ℕ, String, Bool, Option}

pub record SystemSetting : Type 0 where
  pub created_at : ℕ
  pub updated_at : ℕ
  pub id : ℕ
  pub key : String
  pub name : String
  pub group_key : String
  pub value : String
  pub value_type : String
  pub default_value : Option String
  pub description : Option String
  pub is_public : Bool
  pub is_builtin : Bool
  pub is_encrypted : Bool
  pub sort_order : ℕ
  pub created_by : Option ℕ
  pub updated_by : Option ℕ

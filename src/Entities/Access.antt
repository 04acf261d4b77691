-- ===== src/Entities/Access.antt =====
-- The rows of src/models/_entities: the users, and the roles with what they grant. A time is a number of
-- milliseconds, a UUID its text.
use rust_template.Base.{ℕ, String, Bool, Option}

pub record User : Type 0 where
  pub created_at : ℕ
  pub updated_at : ℕ
  pub id : ℕ
  pub pid : String
  pub email : String
  pub password : String
  pub api_key : String
  pub name : String
  pub reset_token : Option String
  pub reset_sent_at : Option ℕ
  pub email_verification_token : Option String
  pub email_verification_sent_at : Option ℕ
  pub email_verified_at : Option ℕ
  pub magic_link_token : Option String
  pub magic_link_expiration : Option ℕ
  pub failed_login_attempts : ℕ
  pub locked_until : Option ℕ
  pub last_failed_login_at : Option ℕ
  pub tenant_id : Option ℕ
  pub current_department_id : Option ℕ

pub record UserRole : Type 0 where
  pub created_at : ℕ
  pub updated_at : ℕ
  pub user_id : ℕ
  pub role_id : ℕ

pub record Role : Type 0 where
  pub created_at : ℕ
  pub updated_at : ℕ
  pub id : ℕ
  pub name : String
  pub code : String
  pub description : Option String
  pub is_system : Bool
  pub enabled : Bool
  pub tenant_id : Option ℕ

pub record Permission : Type 0 where
  pub created_at : ℕ
  pub updated_at : ℕ
  pub id : ℕ
  pub name : String
  pub code : String
  pub group_name : String
  pub description : Option String

pub record RolePermission : Type 0 where
  pub created_at : ℕ
  pub updated_at : ℕ
  pub role_id : ℕ
  pub permission_id : ℕ

pub record RoleDataScope : Type 0 where
  pub created_at : ℕ
  pub updated_at : ℕ
  pub role_id : ℕ
  pub data_scope_id : ℕ

pub record DataScope : Type 0 where
  pub created_at : ℕ
  pub updated_at : ℕ
  pub id : ℕ
  pub name : String
  pub code : String
  pub rule : Option String
  pub description : Option String

pub record UserDepartment : Type 0 where
  pub created_at : ℕ
  pub updated_at : ℕ
  pub user_id : ℕ
  pub department_id : ℕ
  pub is_primary : Bool

pub record Menu : Type 0 where
  pub created_at : ℕ
  pub updated_at : ℕ
  pub id : ℕ
  pub parent_id : Option ℕ
  pub title : String
  pub path : Option String
  pub icon : Option String
  pub permission_code : Option String
  pub sort_order : ℕ
  pub visible : Bool
  pub enabled : Bool

pub record RoleMenu : Type 0 where
  pub created_at : ℕ
  pub updated_at : ℕ
  pub role_id : ℕ
  pub menu_id : ℕ
  pub can_create : Bool
  pub can_update : Bool
  pub can_delete : Bool
  pub can_import : Bool
  pub can_export : Bool
  pub can_print : Bool
  pub can_help : Bool

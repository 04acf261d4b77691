-- ===== src/Entities/Sessions.antt =====
-- The rows of src/models/_entities/refresh_tokens.rs and operation_logs.rs.
use rust_template.Base.{ℕ, String, Option}

pub record RefreshToken : Type 0 where
  pub created_at : ℕ
  pub updated_at : ℕ
  pub id : ℕ
  pub token_hash : String
  pub expires_at : ℕ
  pub revoked_at : Option ℕ
  pub created_by_ip : Option String
  pub user_agent : Option String
  pub user_id : ℕ

pub record OperationLog : Type 0 where
  pub created_at : ℕ
  pub updated_at : ℕ
  pub id : ℕ
  pub trace_id : Option String
  pub log_type : String
  pub level : String
  -- `module`
  pub log_module : String
  pub action : String
  pub message : String
  pub method : Option String
  pub path : Option String
  pub status : Option ℕ
  pub duration_ms : Option ℕ
  pub ip : Option String
  pub user_agent : Option String
  pub operator : Option String
  pub request_summary : Option String
  pub response_summary : Option String
  pub error_message : Option String
  pub user_id : Option ℕ

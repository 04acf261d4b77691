-- ===== src/Entities/Limits.antt =====
-- The rows of src/models/_entities/rate_limit_rules.rs and rate_limit_events.rs.
use rust_template.Base.{ℕ, String, Bool, Option}
use rust_template.Base.Int.{ℤ}

pub record RateLimitRule : Type 0 where
  pub created_at : ℕ
  pub updated_at : ℕ
  pub id : ℕ
  pub name : String
  pub scope : String
  pub path_pattern : String
  pub method : Option String
  pub limit_count : ℤ
  pub window_seconds : ℤ
  pub enabled : Bool
  pub description : Option String

pub record RateLimitEvent : Type 0 where
  pub created_at : ℕ
  pub updated_at : ℕ
  pub id : ℕ
  pub ip : String
  pub method : String
  pub path : String
  pub rule_id : Option ℕ
  pub user_id : Option ℕ
  pub occurred_at : ℕ

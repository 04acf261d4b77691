-- ===== src/Env.antt =====
-- What the handlers take from libraries: UUIDs, JSON and times (uuid, serde_json, chrono). A time
-- is a number of milliseconds, and all calls of `Local::now()` in one request answer `now`.
use rust_template.Base.{ℕ, String, Bool, Option}

pub record Env : Type 0 where
  -- `Uuid::parse_str`
  pub parse_uuid : String → Option String
  -- whether `serde_json::from_str::<Value>` accepts the text
  pub is_json : String → Bool
  -- `DateTime::parse_from_rfc3339`
  pub parse_from_rfc3339 : String → Option ℕ
  -- `to_rfc3339`
  pub to_rfc3339 : ℕ → String
  -- `format("%Y%m%d%H%M%S%3f")`
  pub format_stamp : ℕ → String
  -- `i32::to_string` of an id
  pub id_text : ℕ → String
  -- `Local::now()`
  pub now : ℕ

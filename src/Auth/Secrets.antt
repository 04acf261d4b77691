-- ===== src/Auth/Secrets.antt =====
-- What the handlers of src/controllers/auth.rs take from libraries and from the configuration:
-- hashes, random texts, JWTs, mails, the end of the day and what the audit middleware knows of the
-- request.
use rust_template.Base.{ℕ, String, Bool, Option}
use rust_template.Api.{Result}

-- the request that `audit::current_request` describes
pub record AuditRequest : Type 0 where
  pub enabled : Bool
  pub ip : Option String
  pub user_agent : Option String
  pub duration : ℕ

pub record Secrets : Type 0 where
  -- the SHA-256 digest of a token, in hexadecimal digits
  pub hash_token : String → String
  -- `hash::random_string`, of a given length
  pub random_string : ℕ → String
  -- `hash::verify_password`: the password, then the stored hash
  pub verify_password : String → String → Bool
  -- `hash::hash_password`
  pub hash_password : String → Option String
  -- `Uuid::new_v4().to_string()`
  pub new_uuid : String
  -- `get_jwt_config` with its error as the API reports it
  pub get_jwt_config : Result (Unit {0})
  -- `generate_token` for a `pid`
  pub generate_token : String → Option String
  -- the next local midnight, if there is exactly one
  pub local_midnight : Option ℕ
  -- the validator's `email`
  pub is_email : String → Bool
  -- the pattern of `get_allow_email_domain_re`
  pub is_allowed_domain : String → Bool
  -- what `AuthMailer` answers
  pub mail : Result (Unit {0})
  -- `audit::current_request()`
  pub audit : Option AuditRequest

-- ===== src/Auth/Tokens.antt =====
-- src/models/refresh_tokens.rs: tokens that are issued once, are valid until they expire or are
-- revoked, and of which only the digest is stored.
use rust_template.Base.{
  ℕ, ◌+◌, ◌*◌, String, Bool, ◌||◌, none, some, str_eq, leb, is_some, if◌then◌else◌,
}
use rust_template.Base.Int.{pos}
use rust_template.Env.{Env}
use rust_template.Db.Interface.{Database}
use rust_template.Db.Handler.{Handler, lift, pure, ◌>>=◌}
use rust_template.Db.Rows.{find_one, insert, update}
use rust_template.Entities.Access.{User}
use rust_template.Entities.Sessions.{RefreshToken}
use rust_template.World.{World, on_refresh_tokens}
use rust_template.Settings.{number_i64, clamp}
use rust_template.Auth.Secrets.{Secrets}
use rust_template.Auth.Lookup.{Lookup, found, missing, failed, into_api, look, as_model}

pub record IssuedRefreshToken : Type 0 where
  pub token : String
  pub model : RefreshToken

module _ (env : Env) (secrets : Secrets) where
  -- the row that `issue` inserts; a day has 86 400 000 milliseconds
  unfoldable pub new_token : User → String → ℕ → ℕ → RefreshToken
  new_token user token expires_days id = record {
    created_at = env.now;
    updated_at = env.now;
    id = id;
    token_hash = secrets.hash_token token;
    expires_at = env.now + expires_days * 86_400_000;
    revoked_at = none;
    created_by_ip = none;
    user_agent = none;
    user_id = user.id;
  }

  -- `revoked_at.is_some() || expires_at <= now`
  unfoldable pub is_over : RefreshToken → Bool
  is_over model = is_some model.revoked_at || leb model.expires_at env.now

  abbrev pub usable : Lookup RefreshToken → Lookup RefreshToken
  usable (found model) = if is_over model then missing else found model
  usable missing = missing
  usable failed = failed

  -- `ActiveModel::revoke`
  unfoldable pub revoked : RefreshToken → RefreshToken
  revoked t = record t { revoked_at = some env.now }

  module _ {db : Database} where
    unfoldable pub issue : User → Handler (World db) IssuedRefreshToken
    unfolding new_token number_i64 clamp
    issue user = do
      token_length ← as_model (number_i64 "auth.refresh_token_length" (pos 64))
      expires_days ← as_model (number_i64 "auth.refresh_token_days" (pos 30))
      let token = secrets.random_string (clamp 32 256 token_length)
      model ← as_model (insert on_refresh_tokens (new_token user token (clamp 1 365 expires_days)))
      pure (record { token = token; model = model })

    unfoldable pub find_valid_by_token : String → Handler (World db) (Lookup RefreshToken)
    unfolding is_over
    find_valid_by_token token = do
      model ←
          look (find_one on_refresh_tokens (λ t. str_eq t.token_hash (secrets.hash_token token)))
      pure (usable model)

    unfoldable pub revoke_row : RefreshToken → Handler (World db) RefreshToken
    unfolding revoked
    revoke_row model = as_model (update on_refresh_tokens model.id revoked)

    unfoldable pub revoke : String → Handler (World db) RefreshToken
    unfolding find_valid_by_token revoke_row
    revoke token = do
      model ← find_valid_by_token token
      valid ← lift (into_api model)
      revoke_row valid

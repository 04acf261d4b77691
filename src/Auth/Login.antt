-- ===== src/Auth/Login.antt =====
-- `login`, `refresh` and `logout` of src/controllers/auth.rs.
use Prim.Native.String.{◌++◌ as str_append}
use rust_template.Base.{
  ℕ, ◌+◌, ◌-◌, ◌^◌, String, Bool, false, not, ◌&&◌, Option, none, some, ltb, leb, ◌==◌, is_none,
  if◌then◌else◌,
}
use rust_template.Env.{Env}
use rust_template.Api.{ApiError, Result, ok, err, ok_or, unauthorized, internal}
use rust_template.Db.Interface.{Database}
use rust_template.Db.Handler.{Handler, attempt, lift, pure, raise, ◌>>=◌}
use rust_template.Db.Rows.{row}
use rust_template.Entities.Access.{User}
use rust_template.Entities.Sessions.{RefreshToken}
use rust_template.World.{World, on_users}
use rust_template.Rbac.Roles.{load, model_error}
use rust_template.Auth.Secrets.{Secrets}
use rust_template.Auth.Lookup.{Lookup, found, missing, failed}
use rust_template.Auth.Logs.{LogInput, record_log}
use rust_template.Auth.Users.{LoginParams, find_by_email, update_user}
use rust_template.Auth.Tokens.{issue, find_valid_by_token, revoke_row, revoke}

-- `LoginResponse` and `RefreshResponse`, the tokens of them
pub record LoginResponse : Type 0 where
  pub token : String
  pub refresh_token : String

abbrev pub locked_message : String
locked_message = "账号已因登录失败次数过多被锁定，请明天再试"

-- an entry of the log on a login
abbrev pub login_log : String → String → String → Option ℕ → String → ℕ → Option String → LogInput
login_log level action message user_id operator status error_message = record {
  log_type = "login";
  level = level;
  log_module = "auth";
  action = action;
  message = message;
  user_id = user_id;
  operator = some operator;
  method = some "POST";
  path = some "/api/auth/login";
  status = some status;
  error_message = error_message;
}

-- `refresh_lookup_error`
abbrev pub refresh_lookup : Lookup RefreshToken → Result RefreshToken
refresh_lookup (found model) = ok model
refresh_lookup missing = err (unauthorized "invalid refresh token")
refresh_lookup failed = err model_error

module _ (env : Env) (secrets : Secrets) where
  token_with : Result (Unit {0}) → User → Result String
  unfolding unauthorized
  token_with (err e) user = err e
  token_with (ok config) user =
      ok_or (secrets.generate_token user.pid) (unauthorized "unauthorized!")

  unfoldable pub jwt_for_user : User → Result String
  unfolding token_with
  jwt_for_user user = token_with secrets.get_jwt_config user

  unfoldable pub end_of_today : Result ℕ
  unfolding internal
  end_of_today = ok_or secrets.local_midnight (internal "failed to calculate lockout time")

  abbrev after_now : Option ℕ → Bool
  after_now none = false
  after_now (some locked_until) = ltb env.now locked_until

  unfoldable pub is_locked : User → Bool
  is_locked user = after_now user.locked_until

  -- `failed_login_attempts.saturating_add(1)`, of an `i32`
  unfoldable pub next_attempts : User → ℕ
  next_attempts user =
      if ltb user.failed_login_attempts (2 ^ 31 - 1)
      then user.failed_login_attempts + 1
      else user.failed_login_attempts

  -- the columns that a failed login sets
  unfoldable pub with_failure : ℕ → User → User
  with_failure attempts u = record u {
    failed_login_attempts = attempts;
    last_failed_login_at = some env.now;
  }

  unfoldable pub with_lock : ℕ → ℕ → User → User
  with_lock attempts until u = record u {
    failed_login_attempts = attempts;
    last_failed_login_at = some env.now;
    locked_until = some until;
  }

  unfoldable pub without_failures : User → User
  without_failures u = record u {
    failed_login_attempts = 0;
    locked_until = none;
    last_failed_login_at = none;
  }

  failed_login_log : User → ℕ → LogInput
  failed_login_log user attempts =
      login_log "warn" (if leb 3 attempts then "login_locked" else "login_failed")
        (if leb 3 attempts then "登录失败：密码错误次数过多，账号已锁定" else "登录失败：密码错误") (some user.id) user.email
        401 (some (str_append "invalid password, attempts=" (env.id_text attempts)))

  -- the answer to a wrong password
  unfoldable pub wrong_password : ℕ → ApiError
  unfolding unauthorized
  wrong_password attempts =
      if leb 3 attempts
      then unauthorized locked_message
      else unauthorized (str_append "账号或密码错误，还可尝试 " (str_append (env.id_text (3 - attempts)) " 次"))

  module _ {db : Database} where
    unfoldable pub login_response : User → Handler (World db) LoginResponse
    unfolding jwt_for_user issue
    login_response user = do
      token ← lift (jwt_for_user user)
      refresh_token ← issue env secrets user
      pure (record { token = token; refresh_token = refresh_token.token })

    unfoldable pub update_failed_login : User → Handler (World db) ℕ
    unfolding end_of_today next_attempts with_failure with_lock update_user
    update_failed_login user = do
      let attempts = next_attempts user
      if leb 3 attempts
          then (do
            until ← lift end_of_today
            stored ← update_user env secrets user (with_lock attempts until)
            pure attempts)
          else (do stored ← update_user env secrets user (with_failure attempts); pure attempts)

    unfoldable pub reset_login_failures : User → Handler (World db) User
    unfolding without_failures update_user
    reset_login_failures user =
        if user.failed_login_attempts == 0
          && is_none user.locked_until
          && is_none user.last_failed_login_at
        then pure user
        else update_user env secrets user without_failures

    unfoldable pub accept_login : User → Handler (World db) LoginResponse
    unfolding reset_login_failures login_response record_log
    accept_login given = do
      user ← reset_login_failures given
      response ← login_response user
      logged ←
          record_log env secrets
            (login_log "info" "login_success" "管理员登录后台" (some user.id) user.email 200 none)
      pure response

    unfoldable pub refuse_login : User → Handler (World db) LoginResponse
    unfolding update_failed_login record_log failed_login_log wrong_password
    refuse_login user = do
      attempts ← update_failed_login user
      logged ← record_log env secrets (failed_login_log user attempts)
      raise (wrong_password attempts)

    unfoldable pub login_of : LoginParams → Lookup User → Handler (World db) LoginResponse
    unfolding unauthorized is_locked accept_login refuse_login record_log
    login_of params failed = raise model_error
    login_of params missing = do
      logged ← record_log env secrets (
          login_log "warn" "login_failed" "登录失败：用户不存在" none params.email 401
            (some "user not found"))
      raise (unauthorized "Invalid credentials!")
    login_of params (found user) =
        if is_locked user
        then (do
          logged ← record_log env secrets (
              login_log "warn" "login_locked" "登录失败：账号已锁定" (some user.id) user.email 401
                (some "account locked"))
          raise (unauthorized locked_message))
        else if not (secrets.verify_password params.password user.password)
        then refuse_login user
        else accept_login user

    unfoldable pub login : LoginParams → Handler (World db) LoginResponse
    unfolding find_by_email login_of
    login params = do user ← find_by_email params.email; login_of params user

    unfoldable pub refresh : String → Handler (World db) LoginResponse
    unfolding find_valid_by_token jwt_for_user issue revoke_row unauthorized
    refresh given = do
      model ← find_valid_by_token env secrets given
      refresh_token ← lift (refresh_lookup model)
      owner ← load (row on_users refresh_token.user_id)
      user ← lift (ok_or owner (unauthorized "invalid refresh token"))
      token ← lift (jwt_for_user user)
      issued ← issue env secrets user
      stored ← revoke_row env secrets refresh_token
      pure (record { token = token; refresh_token = issued.token })

    -- An error of `revoke` is logged and goes no further.
    unfoldable pub logout : String → Handler (World db) (Unit {0})
    unfolding revoke
    logout given = do done ← attempt (revoke env secrets given); pure tt

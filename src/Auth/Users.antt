-- ===== src/Auth/Users.antt =====
-- src/models/users.rs: the lookups of a user and the changes of a user's row.
use rust_template.Base.{
  ℕ, ◌+◌, ◌*◌, String, Bool, false, ◌&&◌, Option, none, some, str_eq, leb, if◌then◌else◌,
}
use rust_template.Base.Text.{chars_count}
use rust_template.Base.Int.{pos}
use rust_template.Env.{Env}
use rust_template.Api.{ok_or, database_error}
use rust_template.Db.Interface.{Database}
use rust_template.Db.Handler.{Handler, lift, pure, raise, ◌>>=◌}
use rust_template.Db.Rows.{find_one, update}
use rust_template.Entities.Access.{User}
use rust_template.World.{World, on_users}
use rust_template.Rbac.Roles.{model_error}
use rust_template.Settings.{number_i64, clamp}
use rust_template.Auth.Secrets.{Secrets}
use rust_template.Auth.Lookup.{Lookup, found, missing, failed, look, as_model}

pub record LoginParams : Type 0 where
  pub email : String
  pub password : String

pub record RegisterParams : Type 0 where
  pub email : String
  pub password : String
  pub name : String

-- an optional text in a query
abbrev is_text : Option String → String → Bool
is_text none t = false
is_text (some s) t = str_eq s t

-- the expiration of a magic link: the token is found if it has one that is not over
abbrev unexpired : User → Option ℕ → ℕ → Lookup User
unexpired user none now = failed
unexpired user (some expired_at) now = if leb now expired_at then found user else failed

abbrev checked : Lookup User → ℕ → Lookup User
checked (found user) now = unexpired user user.magic_link_expiration now
checked missing now = missing
checked failed now = failed

-- `Validator` in `before_save`
unfoldable pub is_valid : Secrets → User → Bool
is_valid secrets user = leb 2 (chars_count user.name) && secrets.is_email user.email

module _ {db : Database} where
  unfoldable pub find_by_email : String → Handler (World db) (Lookup User)
  find_by_email email = look (find_one on_users (λ u. str_eq u.email email))

  unfoldable pub find_by_verification_token : String → Handler (World db) (Lookup User)
  find_by_verification_token token =
      look (find_one on_users (λ u. is_text u.email_verification_token token))

  unfoldable pub find_by_reset_token : String → Handler (World db) (Lookup User)
  find_by_reset_token token = look (find_one on_users (λ u. is_text u.reset_token token))

  unfoldable pub find_by_magic_token : Env → String → Handler (World db) (Lookup User)
  find_by_magic_token env token = do
    user ← look (find_one on_users (λ u. is_text u.magic_link_token token))
    pure (checked user env.now)

module _ {db : Database} (env : Env) (secrets : Secrets) where
  -- `update(db)` of a user: `before_save` validates the row first
  unfoldable pub update_user : User → (User → User) → Handler (World db) User
  unfolding is_valid
  update_user user change =
      if is_valid secrets (change user)
      then update on_users user.id change
      else raise database_error

  unfoldable pub set_email_verification_sent : User → Handler (World db) User
  unfolding update_user
  set_email_verification_sent user = as_model (
      update_user user λ u. record u {
        email_verification_sent_at = some env.now;
        email_verification_token = some secrets.new_uuid;
      })

  unfoldable pub set_forgot_password_sent : User → Handler (World db) User
  unfolding update_user
  set_forgot_password_sent user = as_model (
      update_user user
        λ u. record u { reset_sent_at = some env.now; reset_token = some secrets.new_uuid })

  unfoldable pub verified : User → Handler (World db) User
  unfolding update_user
  verified user = as_model (update_user user λ u. record u { email_verified_at = some env.now })

  unfoldable pub reset_password : User → String → Handler (World db) User
  unfolding update_user
  reset_password user password = do
    hash ← lift (ok_or (secrets.hash_password password) model_error)
    as_model (
        update_user user
          λ u. record u { password = hash; reset_token = none; reset_sent_at = none })

  -- a minute has 60 000 milliseconds
  unfoldable pub create_magic_link : User → Handler (World db) User
  unfolding update_user number_i64 clamp
  create_magic_link user = do
    length ← as_model (number_i64 "auth.magic_link_length" (pos 32))
    minutes ← as_model (number_i64 "auth.magic_link_expiration_minutes" (pos 5))
    let random_str = secrets.random_string (clamp 16 128 length)
    let expired = env.now + clamp 1 120 minutes * 60_000
    as_model (
        update_user user λ u. record u {
          magic_link_token = some random_str;
          magic_link_expiration = some expired;
        })

  unfoldable pub clear_magic_link : User → Handler (World db) User
  unfolding update_user
  clear_magic_link user =
      as_model
        (update_user user λ u. record u { magic_link_token = none; magic_link_expiration = none })

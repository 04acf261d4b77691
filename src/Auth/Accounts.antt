-- ===== src/Auth/Accounts.antt =====
-- `verify`, `forgot`, `reset`, `magic_link`, `magic_link_verify` and `resend_verification_email` of
-- src/controllers/auth.rs.
use rust_template.Base.{String, not, is_some, if◌then◌else◌}
use rust_template.Env.{Env}
use rust_template.Api.{unauthorized, bad_request}
use rust_template.Db.Interface.{Database}
use rust_template.Db.Handler.{Handler, lift, pure, raise, ◌>>=◌}
use rust_template.Entities.Access.{User}
use rust_template.World.{World}
use rust_template.Auth.Secrets.{Secrets}
use rust_template.Auth.Lookup.{Lookup, found, missing, failed}
use rust_template.Auth.Users.{
  find_by_email, find_by_verification_token, find_by_reset_token, find_by_magic_token,
  set_email_verification_sent, set_forgot_password_sent, verified, reset_password,
  create_magic_link, clear_magic_link,
}
use rust_template.Auth.Login.{LoginResponse, login_response}

module _ {db : Database} (env : Env) (secrets : Secrets) where
  mark_verified : Lookup User → Handler (World db) (Unit {0})
  unfolding unauthorized verified
  mark_verified missing = raise (unauthorized "invalid token")
  mark_verified failed = raise (unauthorized "invalid token")
  mark_verified (found user) =
      if is_some user.email_verified_at
      then pure tt
      else (do stored ← verified env secrets user; pure tt)

  unfoldable pub verify : String → Handler (World db) (Unit {0})
  unfolding find_by_verification_token mark_verified
  verify token = do user ← find_by_verification_token token; mark_verified user

  send_forgot : Lookup User → Handler (World db) (Unit {0})
  unfolding set_forgot_password_sent
  send_forgot missing = pure tt
  send_forgot failed = pure tt
  send_forgot (found user) = do
    stored ← set_forgot_password_sent env secrets user
    lift secrets.mail

  unfoldable pub forgot : String → Handler (World db) (Unit {0})
  unfolding find_by_email send_forgot
  forgot email = do user ← find_by_email email; send_forgot user

  set_password : String → Lookup User → Handler (World db) (Unit {0})
  unfolding reset_password
  set_password password missing = pure tt
  set_password password failed = pure tt
  set_password password (found user) = do stored ← reset_password env secrets user password; pure tt

  unfoldable pub reset : String → String → Handler (World db) (Unit {0})
  unfolding find_by_reset_token set_password
  reset token password = do user ← find_by_reset_token token; set_password password user

  send_magic_link : Lookup User → Handler (World db) (Unit {0})
  unfolding create_magic_link
  send_magic_link missing = pure tt
  send_magic_link failed = pure tt
  send_magic_link (found user) = do stored ← create_magic_link env secrets user; lift secrets.mail

  unfoldable pub magic_link : String → Handler (World db) (Unit {0})
  unfolding bad_request find_by_email send_magic_link
  magic_link email =
      if not (secrets.is_allowed_domain email)
      then raise (bad_request "invalid request")
      else (do user ← find_by_email email; send_magic_link user)

  magic_login : Lookup User → Handler (World db) LoginResponse
  unfolding unauthorized clear_magic_link login_response
  magic_login missing = raise (unauthorized "unauthorized!")
  magic_login failed = raise (unauthorized "unauthorized!")
  magic_login (found user) = do
    cleared ← clear_magic_link env secrets user
    login_response env secrets cleared

  unfoldable pub magic_link_verify : String → Handler (World db) LoginResponse
  unfolding find_by_magic_token magic_login
  magic_link_verify token = do user ← find_by_magic_token env token; magic_login user

  resend : Lookup User → Handler (World db) (Unit {0})
  unfolding set_email_verification_sent
  resend missing = pure tt
  resend failed = pure tt
  resend (found user) =
      if is_some user.email_verified_at
      then pure tt
      else (do stored ← set_email_verification_sent env secrets user; lift secrets.mail)

  unfoldable pub resend_verification_email : String → Handler (World db) (Unit {0})
  unfolding find_by_email resend
  resend_verification_email email = do user ← find_by_email email; resend user

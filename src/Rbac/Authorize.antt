-- ===== src/Rbac/Authorize.antt =====
-- `find_by_pid` of src/models/users.rs and `authorize` of src/controllers/admin/mod.rs. Verifying
-- the JWT and parsing a UUID are libraries' work: the claims' `pid` and `parse_uuid` are arguments.
use rust_template.Base.{String, Option, str_eq}
use rust_template.Api.{ok_or}
use rust_template.Db.Interface.{Database}
use rust_template.Db.Handler.{Handler, lift, pure, ◌>>=◌, ◌>>◌}
use rust_template.Db.Rows.{find_one}
use rust_template.Entities.Access.{User}
use rust_template.World.{World, on_users}
use rust_template.Rbac.Roles.{load, entity_not_found, model_error, assert_permission}

module _ {db : Database} (parse_uuid : String → Option String) where
  unfoldable pub find_by_pid : String → Handler (World db) User
  find_by_pid pid = do
    uuid ← lift (ok_or (parse_uuid pid) model_error)
    found ← load (find_one on_users (λ u. str_eq u.pid uuid))
    lift (ok_or found entity_not_found)

  unfoldable pub authorize : String → String → Handler (World db) User
  authorize pid permission = do
    user ← find_by_pid pid
    assert_permission user.id permission
    pure user

-- ===== src/Auth/Departments.antt =====
-- `switch_current_department` of src/controllers/auth.rs.
use rust_template.Base.{
  ℕ, String, not, ◌&&◌, Option, none, some, ◌==◌, is_none, is_some_of, if◌then◌else◌,
}
use rust_template.Env.{Env}
use rust_template.Api.{ok_or, bad_request, forbidden}
use rust_template.Db.Interface.{Database}
use rust_template.Db.Handler.{Handler, query, lift, pure, raise, ◌>>=◌}
use rust_template.Db.Rows.{row, find_one}
use rust_template.Entities.Access.{User}
use rust_template.World.{World, on_departments, on_tenants, on_user_departments}
use rust_template.Rbac.Authorize.{find_by_pid}
use rust_template.Auth.Secrets.{Secrets}
use rust_template.Auth.Users.{update_user}

abbrev pub with_department : Option ℕ → User → User
with_department department_id u = record u { current_department_id = department_id }

module _ {db : Database} (env : Env) (secrets : Secrets) where
  unfoldable pub validate_current_department : User → ℕ → Handler (World db) (Unit {0})
  unfolding bad_request forbidden
  validate_current_department user department_id = do
    stored ← query (row on_departments department_id)
    department ← lift (ok_or stored (bad_request "department not found"))
    if not (is_some_of user.tenant_id department.tenant_id)
        then raise (forbidden "cannot switch to another tenant department")
        else if not department.enabled
        then raise (bad_request "department is disabled")
        else (do
          owner ← query (row on_tenants department.tenant_id)
          tenant ← lift (ok_or owner (bad_request "tenant not found"))
          if not tenant.departments_enabled
              then raise (forbidden "department management is disabled")
              else (do
                link ← query (
                    find_one on_user_departments
                      (λ l. l.user_id == user.id && l.department_id == department_id))
                if is_none link
                    then raise (forbidden "department is not assigned to user")
                    else pure tt))

  unfoldable pub validated : User → Option ℕ → Handler (World db) (Unit {0})
  unfolding validate_current_department
  validated user none = pure tt
  validated user (some department_id) = validate_current_department user department_id

  unfoldable pub switch_current_department : String → Option ℕ → Handler (World db) (Unit {0})
  unfolding find_by_pid validated update_user
  switch_current_department pid department_id = do
    user ← find_by_pid env.parse_uuid pid
    checked ← validated user department_id
    stored ← update_user env secrets user (with_department department_id)
    pure tt

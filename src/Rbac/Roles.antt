-- ===== src/Rbac/Roles.antt =====
-- src/models/rbac.rs: the roles of a user and the permission check. A failing query is a
-- `ModelError`, which the API reports as an internal error.
use rust_template.Base.{
  ℕ, String, Bool, true, false, ◌&&◌, List, [], map, any, leb, ◌==◌, str_eq, is_empty, is_some,
  if◌then◌else◌,
}
use rust_template.Base.Sort.{sort_by}
use rust_template.Api.{ApiError, Result, ok, err, ok_or, bad_request, forbidden, internal}
use rust_template.Db.Interface.{Database}
use rust_template.Db.Handler.{Handler, query, lift, pure, raise, ◌>>=◌}
use rust_template.Db.Rows.{select, find_one}
use rust_template.Entities.Access.{Role}
use rust_template.World.{World, on_user_roles, on_roles, on_permissions, on_role_permissions}
use rust_template.Rbac.Ids.{unique_ids, is_in}

-- `From<ModelError> for ApiError`: a missing entity, and any other error of the database
unfoldable pub entity_not_found : ApiError
unfolding bad_request
entity_not_found = bad_request "entity not found"

unfoldable pub model_error : ApiError
unfolding internal
model_error = internal "model operation failed"

abbrev pub as_model_error : {A : Type 0} → Result A → Result A
as_model_error (ok a) = ok a
as_model_error (err e) = err model_error

module _ {W A : Type 0} where
  -- a query whose `DbErr` becomes a `ModelError`
  unfoldable pub load : (W → A) → Handler W A
  load f c = let (r, c') = query f c in (as_model_error r, c')

abbrev pub super_admin_role : String
super_admin_role = "super_admin"

unfoldable pub has_super_admin_role : List Role → Bool
has_super_admin_role roles = any (λ role. str_eq role.code super_admin_role) roles

module _ {db : Database} where
  -- the second query of `load_user_roles`
  unfoldable pub enabled_roles : List ℕ → World db → List Role
  enabled_roles role_ids w =
      sort_by (λ a b. leb a.id b.id) (select on_roles (λ r. is_in role_ids r.id && r.enabled) w)

  unfoldable pub load_user_roles : ℕ → Handler (World db) (List Role)
  load_user_roles user_id = do
    links ← load (select on_user_roles (λ l. l.user_id == user_id))
    let role_ids = unique_ids (map (λ l. l.role_id) links)
    if is_empty role_ids then pure [] else load (enabled_roles role_ids)

  unfoldable pub is_super_admin : ℕ → Handler (World db) Bool
  is_super_admin user_id = do roles ← load_user_roles user_id; pure (has_super_admin_role roles)

  -- the last query of `user_has_permission`
  unfoldable pub linked : List ℕ → ℕ → World db → Bool
  linked role_ids permission_id w = is_some (
      find_one on_role_permissions
        (λ l. is_in role_ids l.role_id && l.permission_id == permission_id) w)

  unfoldable pub user_has_permission : ℕ → String → Handler (World db) Bool
  user_has_permission user_id code = do
    user_roles ← load_user_roles user_id
    if has_super_admin_role user_roles then pure true else do
      let role_ids = unique_ids (map (λ r. r.id) user_roles)
      if is_empty role_ids then pure false else do
        found ← load (find_one on_permissions (λ p. str_eq p.code code))
        permission ← lift (ok_or found entity_not_found)
        load (linked role_ids permission.id)

  unfoldable pub assert_permission : ℕ → String → Handler (World db) (Unit {0})
  assert_permission user_id code = do
    granted ← user_has_permission user_id code
    if granted then pure tt else raise (forbidden "permission denied")

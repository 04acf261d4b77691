-- ===== src/Rbac/Scope.antt =====
-- `resolve_data_scope` of src/models/rbac.rs: which rows a user's roles let the user see.
use rust_template.Base.{
  ℕ, String, Bool, true, ◌&&◌, Option, none, some, List, [], map, any, ◌==◌, str_eq, is_empty, leb,
  if◌then◌else◌,
}
use mathlib.Core.Option
use rust_template.Base.Sort.{sort_by}
use rust_template.Db.Interface.{Database}
use rust_template.Db.Handler.{Handler, pure, ◌>>=◌}
use rust_template.Db.Rows.{select, find_one}
use rust_template.Entities.Access.{User, UserDepartment, DataScope}
use rust_template.World.{World, on_role_data_scopes, on_data_scopes, on_user_departments}
use rust_template.Rbac.Ids.{unique_ids, is_in}
use rust_template.Rbac.Roles.{load, has_super_admin_role, load_user_roles}

pub data EffectiveDataScope : Type 0 where
  all : EffectiveDataScope
  tenant : (tenant_id : ℕ) → EffectiveDataScope
  department : (tenant_id department_id : ℕ) → EffectiveDataScope
  self_only : (user_id : ℕ) (tenant_id : Option ℕ) → EffectiveDataScope
  nothing : EffectiveDataScope

-- `EffectiveDataScope::code`
unfoldable pub code : EffectiveDataScope → String
code all = "all"
code (tenant t) = "tenant"
code (department t d) = "department"
code (self_only u t) = "self"
code nothing = "none"

unfoldable pub has_code : String → List DataScope → Bool
has_code c scopes = any (λ scope. str_eq scope.code c) scopes

-- `map_or(None, |tenant_id| Tenant { tenant_id })`
abbrev pub tenant_scope : Option ℕ → EffectiveDataScope
tenant_scope none = nothing
tenant_scope (some tenant_id) = tenant tenant_id

unfoldable pub self_scope : User → List DataScope → EffectiveDataScope
unfolding has_code
self_scope user scopes =
    if has_code "self" scopes then self_only user.id user.tenant_id else nothing

abbrev pub or_else : Option EffectiveDataScope → EffectiveDataScope → EffectiveDataScope
or_else none d = d
or_else (some scope) d = scope

module _ {db : Database} where
  -- the row that makes the user a member of the department
  unfoldable pub membership : User → ℕ → World db → Option UserDepartment
  membership user department_id =
      find_one on_user_departments (λ l. l.user_id == user.id && l.department_id == department_id)

  unfoldable pub department_of :
      User → Option ℕ → Option ℕ → Handler (World db) (Option EffectiveDataScope)
  unfolding membership
  department_of user none d = pure none
  department_of user (some tenant_id) none = pure none
  department_of user (some tenant_id) (some department_id) = do
    link ← load (membership user department_id)
    pure (Option.map (λ _. department tenant_id department_id) link)

  unfoldable pub resolve_department_scope : User → Handler (World db) (Option EffectiveDataScope)
  unfolding department_of
  resolve_department_scope user = department_of user user.tenant_id user.current_department_id

  -- the tests on the loaded scopes, in their order
  unfoldable pub scope_of : User → List DataScope → Handler (World db) EffectiveDataScope
  unfolding has_code self_scope resolve_department_scope
  scope_of user scopes =
      if has_code "all" scopes
      then pure all
      else if has_code "tenant" scopes
      then pure (tenant_scope user.tenant_id)
      else (do
        found ← if has_code "department" scopes then resolve_department_scope user else pure none
        pure (or_else found (self_scope user scopes)))

  unfoldable pub resolve_data_scope : User → Handler (World db) EffectiveDataScope
  resolve_data_scope user = do
    roles ← load_user_roles user.id
    if has_super_admin_role roles then pure all else do
      let role_ids = unique_ids (map (λ r. r.id) roles)
      if is_empty role_ids then pure nothing else do
        links ← load (select on_role_data_scopes (λ l. is_in role_ids l.role_id))
        let data_scope_ids = unique_ids (map (λ l. l.data_scope_id) links)
        if is_empty data_scope_ids then pure nothing else do
          scopes ← load (select on_data_scopes (λ s. is_in data_scope_ids s.id))
          scope_of user scopes

  -- `load_user_data_scopes`, the scopes themselves
  unfoldable pub load_user_data_scopes : ℕ → Handler (World db) (List DataScope)
  load_user_data_scopes user_id = do
    roles ← load_user_roles user_id
    if has_super_admin_role roles then load (by_id (λ _. true)) else do
      let role_ids = unique_ids (map (λ r. r.id) roles)
      if is_empty role_ids then pure [] else do
        links ← load (select on_role_data_scopes (λ l. is_in role_ids l.role_id))
        let data_scope_ids = unique_ids (map (λ l. l.data_scope_id) links)
        if is_empty data_scope_ids then pure [] else load (by_id (λ s. is_in data_scope_ids s.id))
    where
      by_id : (DataScope → Bool) → World db → List DataScope
      by_id c w = sort_by (λ a b. leb a.id b.id) (select on_data_scopes c w)

-- `data_scope_codes`
unfoldable pub data_scope_codes : List DataScope → List String
data_scope_codes scopes = map (λ scope. scope.code) scopes

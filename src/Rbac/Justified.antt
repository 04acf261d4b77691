-- ===== src/Rbac/Justified.antt =====
-- What src/models/rbac.rs grants a user when it resolves a data scope, and what its department
-- query answers.
use mathlib.Core.Bool.{and-eq-true_iff}
use mathlib.Core.List.{Memᴰ}
use mathlib.Core.Option
use rust_template.Base.{ℕ, String, ◌≡◌, refl, sym, ◌∙◌, ◌⊎◌, Option, none, some, ==_iff, arith}
use rust_template.Db.Interface.{Database}
use rust_template.Db.Handler.{Runs-pure}
use rust_template.Db.Rules.{ReadsIf}
use rust_template.Db.Rows.{all_rows, find_one-some, find_one-none}
use rust_template.Entities.Access.{User, UserDepartment, DataScope}
use rust_template.World.{World, on_role_data_scopes, on_data_scopes, on_user_departments}
use rust_template.Rbac.Roles.{model_error}
use rust_template.Rbac.Grants.{IsSuperAdmin, Runs-bind-load}
use rust_template.Rbac.Links.{LinkedTo}
use rust_template.Rbac.Scope.{
  EffectiveDataScope, all, tenant, department, self_only, nothing, membership,
  resolve_department_scope, department_of,
}

some_injective : {A : Type 0} {a b : A} → some a ≡ some b → a ≡ b
some_injective h = cc

module _ {db : Database} (w : World db) (user : User) where
  -- a data scope with the code, linked to an enabled role of the user
  pub record HasScope (c : String) : Type 0 where
    pub scope : DataScope
    pub listed : Memᴰ scope (all_rows on_data_scopes w)
    pub is_linked :
        LinkedTo on_role_data_scopes (λ l. l.role_id) (λ l. l.data_scope_id) w user.id scope.id
    pub same_code : scope.code ≡ c

  -- a member of the department that is selected
  pub record InDepartment (tenant_id department_id : ℕ) : Type 0 where
    pub in_tenant : user.tenant_id ≡ some tenant_id
    pub selected : user.current_department_id ≡ some department_id
    pub link : UserDepartment
    pub link_listed : Memᴰ link (all_rows on_user_departments w)
    pub of_user : link.user_id ≡ user.id
    pub of_department : link.department_id ≡ department_id

  abbrev pub SeesAll : Type 0
  SeesAll = IsSuperAdmin w user.id ⊎ HasScope "all"

  -- neither every row nor those of the tenant
  abbrev pub IsNarrow : Type 0
  IsNarrow = (¬ SeesAll) × (¬ HasScope "tenant")

  abbrev pub SeesDepartment : ℕ → ℕ → Type 0
  SeesDepartment t d = HasScope "department" × InDepartment t d

  -- The scope is the first that applies of: all, tenant, department, self.
  unfoldable pub Justified : EffectiveDataScope → Type 0
  Justified all = SeesAll
  Justified (tenant t) = (¬ SeesAll) × HasScope "tenant" × (user.tenant_id ≡ some t)
  Justified (department t d) = IsNarrow × SeesDepartment t d
  Justified (self_only u t) =
      IsNarrow
      × ((t d : ℕ) → ¬ SeesDepartment t d)
      × HasScope "self"
      × (u ≡ user.id)
      × (t ≡ user.tenant_id)
  Justified nothing =
      (¬ SeesAll)
      × ((HasScope "tenant" × (user.tenant_id ≡ none))
          ⊎ (IsNarrow × ((t d : ℕ) → ¬ SeesDepartment t d) × (¬ HasScope "self")))

  -- What the department query answers.
  unfoldable pub Department : Option EffectiveDataScope → Type 0
  Department none = (t d : ℕ) → ¬ InDepartment t d
  Department (some (department t d)) = InDepartment t d
  Department (some _) = ⊥

  member-InDepartment :
      (t d : ℕ)
      → user.tenant_id ≡ some t
      → user.current_department_id ≡ some d
      → (link : Option UserDepartment) → membership user d w ≡ link
      → Department (Option.map (λ _. department t d) link)
  unfolding Department membership
  member-InDepartment t d et ed none e = λ t' d' h.
      let same : d ≡ d' = some_injective (sym ed ∙ h.selected) in
      let refused = find_one-none on_user_departments _ w e h.link_listed in
      ground (arith, h.of_user, h.of_department)
  member-InDepartment t d et ed (some l) e =
      let (m, c) = find_one-some on_user_departments _ w e in
      let (u, k) = (and-eq-true_iff _ _).0 c in
      record {
        in_tenant = et;
        selected = ed;
        link = l;
        link_listed = m;
        of_user = (==_iff _ _).0 u;
        of_department = (==_iff _ _).0 k;
      }

  department_of_lem :
      {F : Type 0} (t d : Option ℕ)
      → user.tenant_id ≡ t
      → user.current_department_id ≡ d
      → ReadsIf F (department_of user t d) w Department (λ e. F × (e ≡ model_error))
  unfolding department_of Department
  department_of_lem none d et ed = Runs-pure none (refl, λ t' d' h. cc (et, h.in_tenant))
  department_of_lem (some t) none et ed = Runs-pure none (refl, λ t' d' h. cc (ed, h.selected))
  department_of_lem (some t) (some d) et ed =
      Runs-bind-load (membership user d) _
        (Runs-pure _ (refl, member-InDepartment t d et ed (membership user d w) refl))
        (λ k. (refl, (k, refl)))

  pub resolve_department_scope_lem :
      {F : Type 0}
      → ReadsIf F (resolve_department_scope user) w Department (λ e. F × (e ≡ model_error))
  unfolding resolve_department_scope
  resolve_department_scope_lem =
      department_of_lem user.tenant_id user.current_department_id refl refl

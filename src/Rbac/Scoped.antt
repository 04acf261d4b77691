-- ===== src/Rbac/Scoped.antt =====
-- `resolve_data_scope` answers the widest scope that the tables grant.
use rust_template.Base.{
  ℕ, String, ◌≡◌, refl, inl, inr, ◌↔◌, true, Option, none, some, List, [], str_eq, eq_iff, is_empty,
  any_of_mem, mem_of_any, Bool-cases, if◌then◌else◌,
}
use rust_template.Api.{Result, ok, err}
use rust_template.Db.Interface.{Database}
use rust_template.Db.Handler.{Ends, Runs-pure, Runs-weaken, pure}
use rust_template.Db.Rules.{ReadsIf, Runs-if, Runs-reads}
use rust_template.Db.Rows.{select, mem-select_to, mem-select_from}
use rust_template.Entities.Access.{User, DataScope, Role}
use rust_template.World.{World, on_role_data_scopes, on_data_scopes}
use rust_template.Rbac.Ids.{is_in}
use rust_template.Rbac.Roles.{model_error, has_super_admin_role}
use rust_template.Rbac.Grants.{IsSuperAdmin, AreRolesOf, load_user_roles_lem, Runs-bind-load}
use rust_template.Rbac.Check.{has_super_to, has_super_from}
use rust_template.Rbac.Links.{
  ids_of, LinkedTo, targets_of, target_to, target_from, no_targets, no_roles,
}
use rust_template.Rbac.Scope.{
  EffectiveDataScope, all, tenant, department, self_only, nothing, tenant_scope, or_else, has_code,
  self_scope, resolve_department_scope, scope_of, resolve_data_scope,
}
use rust_template.Rbac.Justified.{
  SeesAll, IsNarrow, SeesDepartment, HasScope, Justified, Department, resolve_department_scope_lem,
}

module _ {db : Database} (w : World db) (user : User) where
  -- `scopes` decide which codes the user has.
  AreScopes : List DataScope → Type 0
  AreScopes scopes = (c : String) → (has_code c scopes ≡ true) ↔ HasScope w user c

  self_lem :
      (scopes : List DataScope)
      → AreScopes scopes
      → IsNarrow w user
      → ((t d : ℕ) → ¬ SeesDepartment w user t d)
      → Justified w user (self_scope user scopes)
  unfolding self_scope AreScopes Justified
  self_lem scopes are narrow apart = elim (Bool-cases (has_code "self" scopes)) [
    | inl e ↦ rw e (narrow, apart, (are "self").0 e, refl, refl)
    | inr e ↦ rw e (λ s. narrow.0 s, inr (narrow, apart, λ h. absurd (cc (e, (are "self").1 h))))
  ]

  -- What the third test finds.
  Found : Option EffectiveDataScope → Type 0
  Found none = (t d : ℕ) → ¬ SeesDepartment w user t d
  Found (some scope) = Justified w user scope

  Department-Found :
      (o : Option EffectiveDataScope)
      → IsNarrow w user
      → HasScope w user "department"
      → Department w user o
      → Found o
  unfolding Found Department Justified
  Department-Found none narrow h d = λ t k s. d t k s.1
  Department-Found (some all) narrow h d = absurd d
  Department-Found (some (tenant t)) narrow h d = absurd d
  Department-Found (some (department t k)) narrow h d = (narrow, (h, d))
  Department-Found (some (self_only u t)) narrow h d = absurd d
  Department-Found (some nothing) narrow h d = absurd d

  Ends-Found :
      (F : Type 0) (r : Result (Option EffectiveDataScope))
      → IsNarrow w user
      → HasScope w user "department"
      → Ends (Department w user) (λ e. F × (e ≡ model_error)) r
      → Ends Found (λ e. F × (e ≡ model_error)) r
  Ends-Found F (ok o) narrow h p = Department-Found o narrow h p
  Ends-Found F (err e) narrow h p = p

  found_lem :
      {F : Type 0} (scopes : List DataScope)
      → AreScopes scopes
      → IsNarrow w user
      → ReadsIf F
          (if has_code "department" scopes then resolve_department_scope user else pure none)
          w
          Found
          (λ e. F × (e ≡ model_error))
  unfolding Found AreScopes
  found_lem scopes are narrow =
      Runs-if (has_code "department" scopes) _ _
        (λ e.
          Runs-weaken (resolve_department_scope_lem w user)
            (λ r w' p. (p.0, Ends-Found _ r narrow ((are "department").0 e) p.1)))
        (λ e. Runs-pure none (refl, λ t d s. absurd (cc (e, (are "department").1 s.0))))

  or_else-Justified :
      (scopes : List DataScope) (found : Option EffectiveDataScope)
      → AreScopes scopes
      → IsNarrow w user
      → Found found
      → Justified w user (or_else found (self_scope user scopes))
  unfolding Found
  or_else-Justified scopes none are narrow f = self_lem scopes are narrow f
  or_else-Justified scopes (some scope) are narrow f = f

  tenant-Justified :
      (t : Option ℕ)
      → user.tenant_id ≡ t
      → (¬ SeesAll w user)
      → HasScope w user "tenant"
      → Justified w user (tenant_scope t)
  unfolding Justified
  tenant-Justified none e not_all h = (not_all, inl (h, e))
  tenant-Justified (some t) e not_all h = (not_all, h, e)

  scope_of_lem :
      {F : Type 0} (scopes : List DataScope)
      → AreScopes scopes
      → (¬ IsSuperAdmin w user.id)
      → ReadsIf F (scope_of user scopes) w (Justified w user) (λ e. F × (e ≡ model_error))
  unfolding scope_of AreScopes Justified
  scope_of_lem scopes are plain =
      Runs-if (has_code "all" scopes) _ _ (λ e. Runs-pure all (refl, inr ((are "all").0 e)))
        (λ e.
          let not_all : ¬ SeesAll w user =
            λ s. elim s [ inl super ↦ plain super | inr h ↦ cc (e, (are "all").1 h) ] in
          Runs-if (has_code "tenant" scopes) _ _
            (λ f.
              Runs-pure _ (refl, tenant-Justified user.tenant_id refl not_all ((are "tenant").0 f)))
            (λ f.
              let narrow : IsNarrow w user = (not_all, λ h. cc (f, (are "tenant").1 h)) in
              Runs-reads _ (found_lem scopes are narrow)
                (λ found k. Runs-pure _ (refl, or_else-Justified scopes found are narrow k))
                (λ d q. (refl, q))))

  -- without a scope
  no_scopes :
      ((target : ℕ)
        → ¬ LinkedTo on_role_data_scopes (λ l. l.role_id) (λ l. l.data_scope_id) w user.id target)
      → AreScopes []
  unfolding AreScopes has_code
  no_scopes unlinked c = (λ e. absurd (cc e), λ h. absurd (unlinked h.scope.id h.is_linked))

  nothing-Justified : AreScopes [] → (¬ IsSuperAdmin w user.id) → Justified w user nothing
  unfolding AreScopes Justified has_code
  nothing-Justified are plain =
      let none_of : (c : String) → ¬ HasScope w user c = λ c h. cc ((are c).1 h) in
      let not_all : ¬ SeesAll w user =
        λ s. elim s [ inl super ↦ plain super | inr h ↦ none_of "all" h ] in
      (
        not_all,
        inr ((not_all, none_of "tenant"), λ t d s. none_of "department" s.0, none_of "self"),
      )

  scope_ids : List Role → List ℕ
  scope_ids roles =
      targets_of on_role_data_scopes (λ l. l.role_id) (λ l. l.data_scope_id) w user.id roles

  loaded_scopes :
      (roles : List Role)
      → AreRolesOf w user.id roles
      → AreScopes (select on_data_scopes (λ s. is_in (scope_ids roles) s.id) w)
  unfolding AreScopes has_code scope_ids
  loaded_scopes roles are c = (
    λ e.
        let (s, m, q) = mem_of_any (λ (s : DataScope). str_eq s.code c) _ e in
        let (listed, i) = mem-select_to on_data_scopes _ w m in
        record {
          scope = s;
          listed = listed;
          is_linked = target_to on_role_data_scopes _ _ w user.id roles are s.id i;
          same_code = (eq_iff s.code c).0 q;
        },
    λ h.
        any_of_mem (λ (s : DataScope). str_eq s.code c)
          (mem-select_from on_data_scopes _ w h.listed
            (target_from on_role_data_scopes _ _ w user.id roles are h.scope.id h.is_linked))
          ((eq_iff h.scope.code c).1 h.same_code),
  )

  -- `resolve_data_scope` answers by the first that applies: every row for a super administrator or
  -- the scope all; with the scope tenant the rows of the user's tenant, and nothing if there is none;
  -- with the scope department those of the department that is selected, if the user is its member;
  -- with the scope self the user's own; and nothing without these. The scopes are those that the
  -- tables link to the user's enabled roles. It writes nothing and fails only if a query fails.
  pub resolve_data_scope_lem :
      {F : Type 0}
      → ReadsIf F (resolve_data_scope user) w (Justified w user) (λ e. F × (e ≡ model_error))
  unfolding resolve_data_scope scope_ids Justified
  resolve_data_scope_lem =
      Runs-reads _ (load_user_roles_lem w user.id)
        (λ roles are.
          Runs-if (has_super_admin_role roles) _ _
            (λ s. Runs-pure all (refl, inl (has_super_to w user.id roles are s)))
            (λ s.
              let plain : ¬ IsSuperAdmin w user.id =
                λ q. cc (s, has_super_from w user.id roles are q) in
              Runs-if (is_empty (ids_of roles)) _ _
                (λ e. Runs-pure nothing (
                  refl,
                  nothing-Justified
                      (no_scopes (λ t. no_roles on_role_data_scopes _ _ w user.id roles are t e))
                      plain,
                ))
                (λ e.
                  Runs-bind-load _ _
                    (Runs-if (is_empty (scope_ids roles)) _ _
                      (λ n. Runs-pure nothing (
                        refl,
                        nothing-Justified
                            (no_scopes
                              (λ t. no_targets on_role_data_scopes _ _ w user.id roles are t n))
                            plain,
                      ))
                      (λ n.
                        Runs-bind-load _ _ (scope_of_lem _ (loaded_scopes roles are) plain)
                          (λ k. (refl, (k, refl)))))
                    (λ k. (refl, (k, refl))))))
        (λ e h. (refl, h))

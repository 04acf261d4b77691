-- ===== src/Rbac/Permissions.antt =====
-- `load_user_permissions` of src/models/rbac.rs. The order of texts is the database's: an argument.
use mathlib.Core.List.{Memᴰ}
use rust_template.Base.{
  ℕ, String, Bool, true, false, ◌||◌, not, ◌≡◌, refl, ◌∙◌, inl, inr, List, [], map, leb, is_empty,
  if◌then◌else◌,
}
use rust_template.Base.Sort.{sort_by, mem-sort_by_to, mem-sort_by_from}
use rust_template.Db.Interface.{Database}
use rust_template.Db.Handler.{Handler, Runs-pure, pure, ◌>>=◌}
use rust_template.Db.Rules.{ReadsIf, Runs-if, Runs-reads}
use rust_template.Db.Rows.{select, all_rows, mem-select_to, mem-select_from}
use rust_template.Entities.Access.{Role, Permission}
use rust_template.World.{World, on_permissions, on_role_permissions}
use rust_template.Rbac.Ids.{unique_ids, is_in}
use rust_template.Rbac.Roles.{model_error, load, has_super_admin_role, load_user_roles}
use rust_template.Rbac.Grants.{
  HasLinked, Grants, IsSuperAdmin, AreRolesOf, load_user_roles_lem, Runs-load, Runs-bind-load,
}
use rust_template.Rbac.Check.{UniqueCodes, has_super_to, has_super_from}
use rust_template.Rbac.Links.{
  ids_of, LinkedTo, targets_of, target_to, target_from, no_targets, no_roles,
}

-- the order by group, then by id
before : (String → String → Bool) → Permission → Permission → Bool
before text_le a b =
    if text_le a.group_name b.group_name
    then not (text_le b.group_name a.group_name) || leb a.id b.id
    else false

module _ {db : Database} (text_le : String → String → Bool) where
  unfoldable pub ordered_permissions : (Permission → Bool) → World db → List Permission
  unfolding before
  ordered_permissions c w = sort_by (before text_le) (select on_permissions c w)

  unfoldable pub load_user_permissions : ℕ → Handler (World db) (List Permission)
  unfolding ordered_permissions
  load_user_permissions user_id = do
    user_roles ← load_user_roles user_id
    if has_super_admin_role user_roles then load (ordered_permissions (λ _. true)) else do
      let role_ids = unique_ids (map (λ r. r.id) user_roles)
      if is_empty role_ids then pure [] else do
        links ← load (select on_role_permissions (λ l. is_in role_ids l.role_id))
        let permission_ids = unique_ids (map (λ l. l.permission_id) links)
        if is_empty permission_ids
            then pure []
            else load (ordered_permissions (λ p. is_in permission_ids p.id))

-- `permission_codes`
unfoldable pub permission_codes : List Permission → List String
permission_codes permissions = map (λ permission. permission.code) permissions

module _ {db : Database} (text_le : String → String → Bool) (w : World db) (user_id : ℕ)
    (unique : UniqueCodes w) where
  -- exactly the stored permissions whose code is granted to the user
  pub AreGranted : List Permission → Type 0
  AreGranted permissions =
      (p : Permission)
      → (Memᴰ p permissions → Memᴰ p (all_rows on_permissions w) × Grants w user_id p.code)
        × (Memᴰ p (all_rows on_permissions w) → Grants w user_id p.code → Memᴰ p permissions)

  permission_ids : List Role → List ℕ
  permission_ids roles =
      targets_of on_role_permissions (λ l. l.role_id) (λ l. l.permission_id) w user_id roles

  LinkedPermission : ℕ → Type 0
  LinkedPermission = LinkedTo on_role_permissions (λ l. l.role_id) (λ l. l.permission_id) w user_id

  linked_of :
      (p : Permission)
      → HasLinked w user_id p.code
      → Memᴰ p (all_rows on_permissions w)
      → LinkedPermission p.id
  unfolding LinkedPermission
  linked_of p h m = record {
    role = h.role;
    has = h.has;
    link = h.link;
    link_listed = h.link_listed;
    of_role = h.of_role;
    of_target = h.of_permission ∙ unique.same h.permission p h.permission_listed m h.same_code;
  }

  of_linked :
      (p : Permission)
      → LinkedPermission p.id
      → Memᴰ p (all_rows on_permissions w)
      → HasLinked w user_id p.code
  unfolding LinkedPermission
  of_linked p l m = record {
    role = l.role;
    has = l.has;
    permission = p;
    permission_listed = m;
    same_code = refl;
    link = l.link;
    link_listed = l.link_listed;
    of_role = l.of_role;
    of_permission = l.of_target;
  }

  every_permission : IsSuperAdmin w user_id → AreGranted (ordered_permissions text_le (λ _. true) w)
  unfolding AreGranted ordered_permissions
  every_permission super p = (
    λ m. ((mem-select_to on_permissions _ w (mem-sort_by_to _ _ m)).0, inl super),
    λ m g. mem-sort_by_from _ (mem-select_from on_permissions _ w m refl),
  )

  no_permission :
      (¬ IsSuperAdmin w user_id) → ((target : ℕ) → ¬ LinkedPermission target) → AreGranted []
  unfolding AreGranted
  no_permission plain unlinked p = (
    λ m. elim m [ ],
    λ m g. elim g [
      | inl super ↦ absurd (plain super)
      | inr h ↦ absurd (unlinked p.id (linked_of p h m))
    ],
  )

  linked_permissions :
      (roles : List Role)
      → AreRolesOf w user_id roles
      → (¬ IsSuperAdmin w user_id)
      → AreGranted (ordered_permissions text_le (λ p. is_in (permission_ids roles) p.id) w)
  unfolding AreGranted ordered_permissions permission_ids LinkedPermission
  linked_permissions roles are plain p = (
    λ m.
        let (listed, i) = mem-select_to on_permissions _ w (mem-sort_by_to _ _ m) in
        (
          listed,
          inr (of_linked p (target_to on_role_permissions _ _ w user_id roles are p.id i) listed),
        ),
    λ m g. elim g [
      | inl super ↦ absurd (plain super)
      | inr h ↦ mem-sort_by_from _ (
          mem-select_from on_permissions _ w m
            (target_from on_role_permissions _ _ w user_id roles are p.id (linked_of p h m)))
    ],
  )

  -- If permission codes are unique, `load_user_permissions` answers exactly the permissions that
  -- the tables grant to the user, those that `user_has_permission` accepts. It writes nothing and
  -- fails only if a query fails.
  pub load_user_permissions_lem :
      {F : Type 0}
      → ReadsIf F (load_user_permissions text_le user_id) w AreGranted (λ e. F × (e ≡ model_error))
  unfolding load_user_permissions permission_ids LinkedPermission
  load_user_permissions_lem =
      Runs-reads _ (load_user_roles_lem w user_id)
        (λ roles are.
          Runs-if (has_super_admin_role roles) _ _
            (λ s.
              Runs-load _ (refl, every_permission (has_super_to w user_id roles are s))
                (λ k. (refl, (k, refl))))
            (λ s.
              let plain : ¬ IsSuperAdmin w user_id =
                λ q. cc (s, has_super_from w user_id roles are q) in
              Runs-if (is_empty (ids_of roles)) _ _
                (λ e. Runs-pure _ (
                  refl,
                  no_permission plain
                      (λ t. no_roles on_role_permissions _ _ w user_id roles are t e),
                ))
                (λ e.
                  Runs-bind-load _ _
                    (Runs-if (is_empty (permission_ids roles)) _ _
                      (λ n. Runs-pure _ (
                        refl,
                        no_permission plain
                            (λ t. no_targets on_role_permissions _ _ w user_id roles are t n),
                      ))
                      (λ n.
                        Runs-load _ (refl, linked_permissions roles are plain)
                          (λ k. (refl, (k, refl)))))
                    (λ k. (refl, (k, refl))))))
        (λ e h. (refl, h))

-- ===== src/Rbac/Check.antt =====
-- The permission check of src/models/rbac.rs decides what the tables grant.
use mathlib.Core.Bool.{and-eq-true_iff}
use mathlib.Core.List.{Memᴰ}
use rust_template.Base.{
  ℕ, String, ◌≡◌, refl, sym, ◌∙◌, ◌⊎◌, inl, inr, ◌↔◌, true, false, ◌&&◌, Option, some, List, map,
  ◌==◌, str_eq, eq_iff, ==_iff, is_empty, arith, any_of_mem, mem_of_any, Option-cases,
}
use rust_template.Api.{ApiError, ok_or, forbidden, ok_or-eq-ok, ok_or-eq-err}
use rust_template.Db.Interface.{Database}
use rust_template.Db.Handler.{Ends, Runs-pure, Runs-raise, Runs-lift}
use rust_template.Db.Rules.{ReadsIf, Runs-if, Runs-reads, Runs-check}
use rust_template.Db.Rows.{find_one, all_rows, find_one-some, find_one-none}
use rust_template.Entities.Access.{User, Role, Permission}
use rust_template.World.{World, on_users, on_permissions, on_role_permissions}
use rust_template.Rbac.Ids.{unique_ids, is_in}
use rust_template.Rbac.Roles.{
  model_error, entity_not_found, super_admin_role, has_super_admin_role, is_super_admin, linked,
  user_has_permission, assert_permission,
}
use rust_template.Rbac.Grants.{
  IsSuperAdmin, HasLinked, Grants, AreRolesOf, load_user_roles_lem, Runs-load, Runs-bind-load,
  is_in_ids_to, is_in_ids_from, is_in_empty,
}
use rust_template.Rbac.Authorize.{find_by_pid, authorize}

module _ {db : Database} (w : World db) where
  -- the unique constraint on `permissions.code`
  pub record UniqueCodes : Type 0 where
    pub same :
        (p q : Permission)
        → Memᴰ p (all_rows on_permissions w)
        → Memᴰ q (all_rows on_permissions w)
        → p.code ≡ q.code
        → p.id ≡ q.id

  pub has_super_to :
      (user_id : ℕ) (roles : List Role)
      → AreRolesOf w user_id roles
      → has_super_admin_role roles ≡ true
      → IsSuperAdmin w user_id
  unfolding has_super_admin_role
  has_super_to user_id roles are h =
      let (r, m, e) = mem_of_any (λ (role : Role). str_eq role.code super_admin_role) roles h in
      record { role = r; has = (are r).0 m; super = (eq_iff r.code super_admin_role).0 e }

  pub has_super_from :
      (user_id : ℕ) (roles : List Role)
      → AreRolesOf w user_id roles
      → IsSuperAdmin w user_id
      → has_super_admin_role roles ≡ true
  unfolding has_super_admin_role
  has_super_from user_id roles are s =
      any_of_mem (λ (role : Role). str_eq role.code super_admin_role) ((are s.role).1 s.has)
        ((eq_iff s.role.code super_admin_role).1 s.super)

  -- `is_super_admin` answers whether an enabled role of the user is `super_admin`.
  pub is_super_admin_lem :
      {F : Type 0} (user_id : ℕ)
      → ReadsIf F
          (is_super_admin user_id)
          w
          (λ b. (b ≡ true) ↔ IsSuperAdmin w user_id)
          (λ e. F × (e ≡ model_error))
  unfolding is_super_admin
  is_super_admin_lem user_id =
      Runs-reads _ (load_user_roles_lem w user_id)
        (λ roles are.
          Runs-pure _ (refl, (has_super_to user_id roles are, has_super_from user_id roles are)))
        (λ e h. (refl, h))

  not_super :
      (user_id : ℕ) (roles : List Role) (code : String)
      → AreRolesOf w user_id roles
      → has_super_admin_role roles ≡ false
      → Grants w user_id code
      → HasLinked w user_id code
  not_super user_id roles code are e (inl s) =
      absurd (ground (arith, has_super_from user_id roles are s))
  not_super user_id roles code are e (inr h) = h

  ids_of : List Role → List ℕ
  ids_of roles = unique_ids (map (λ (r : Role). r.id) roles)

  linked_to :
      (user_id : ℕ) (roles : List Role) (p : Permission)
      → AreRolesOf w user_id roles
      → Memᴰ p (all_rows on_permissions w)
      → linked (ids_of roles) p.id w ≡ true
      → HasLinked w user_id p.code
  unfolding linked ids_of
  linked_to user_id roles p are listed h =
      elim (Option-cases (
        find_one on_role_permissions
          (λ l. is_in (ids_of roles) l.role_id && l.permission_id == p.id) w)) [
            | inl e ↦ absurd (ground (arith, e))
            | inr (l, e) ↦
                let (m, c) = find_one-some on_role_permissions _ w e in
                let c' = (and-eq-true_iff _ _).0 c in
                let (r, k, q) = is_in_ids_to (λ (x : Role). x.id) roles l.role_id c'.0 in
                record {
                  role = r;
                  has = (are r).0 k;
                  permission = p;
                  permission_listed = listed;
                  same_code = refl;
                  link = l;
                  link_listed = m;
                  of_role = sym q;
                  of_permission = (==_iff _ _).0 c'.1;
                }
          ]

  linked_from :
      (user_id : ℕ) (roles : List Role) (p : Permission)
      → UniqueCodes
      → AreRolesOf w user_id roles
      → Memᴰ p (all_rows on_permissions w)
      → HasLinked w user_id p.code
      → linked (ids_of roles) p.id w ≡ true
  unfolding linked ids_of
  linked_from user_id roles p unique are listed h =
      let i =
        is_in_ids_from (λ (x : Role). x.id) roles h.link.role_id ((are h.role).1 h.has)
          (sym h.of_role) in
      let j =
        (==_iff h.link.permission_id p.id).1
          (h.of_permission ∙ unique.same h.permission p h.permission_listed listed h.same_code) in
      let both : (is_in (ids_of roles) h.link.role_id && h.link.permission_id == p.id) ≡ true =
        rw (i, j) in
      elim (Option-cases (
        find_one on_role_permissions
          (λ l. is_in (ids_of roles) l.role_id && l.permission_id == p.id) w)) [
            | inl e ↦ absurd (cc (find_one-none on_role_permissions _ w e h.link_listed, both))
            | inr (l, e) ↦ rw e
          ]

  -- the errors of the check: a failing query, or a code that no permission has
  abbrev pub CheckFails : Type 0 → String → ApiError → Type 0
  CheckFails F code e =
      (F × (e ≡ model_error))
      ⊎ ((e ≡ entity_not_found)
          × ((p : Permission) → Memᴰ p (all_rows on_permissions w) → str_eq p.code code ≡ false))

  no_linked :
      (user_id : ℕ) (roles : List Role) (code : String)
      → AreRolesOf w user_id roles
      → is_empty (ids_of roles) ≡ true
      → ¬ HasLinked w user_id code
  unfolding ids_of
  no_linked user_id roles code are e h =
      is_in_empty _ h.role.id e
        (is_in_ids_from (λ (x : Role). x.id) roles h.role.id ((are h.role).1 h.has) refl)

  -- If permission codes are unique, the check answers `true` exactly if the tables grant the code
  -- to the user. It writes nothing, and fails only if a query fails or no permission has the code.
  pub user_has_permission_lem :
      {F : Type 0} (user_id : ℕ) (code : String)
      → UniqueCodes
      → ReadsIf F
          (user_has_permission user_id code)
          w
          (λ b. (b ≡ true) ↔ Grants w user_id code)
          (CheckFails F code)
  unfolding user_has_permission ids_of
  user_has_permission_lem user_id code unique =
      Runs-reads _ (load_user_roles_lem w user_id)
        (λ roles are.
          Runs-if _ _ _
            (λ s. Runs-pure true (refl, (λ _. inl (has_super_to user_id roles are s), λ _. refl)))
            (λ s.
              let plain = not_super user_id roles code are s in
              Runs-if _ _ _
                (λ e.
                  Runs-pure false
                    (refl, (λ h. cc, λ g. absurd (no_linked user_id roles code are e (plain g)))))
                (λ e.
                  Runs-bind-load _ _
                    (Runs-check _ _
                      (λ p found.
                        let (m, c) = find_one-some on_permissions _ w (ok_or-eq-ok _ _ found) in
                        let same = (eq_iff p.code code).0 c in
                        Runs-load _
                          (
                            refl,
                            (
                              λ h. inr (rw same at (linked_to user_id roles p are m h)),
                              λ g. linked_from user_id roles p unique are m (rw same (plain g)),
                            ),
                          )
                          (λ k. (refl, inl (k, refl))))
                      (λ d missing.
                        let (o, q) = ok_or-eq-err _ _ missing in
                        (refl, inr (q, λ p m. find_one-none on_permissions _ w o m))))
                    (λ k. (refl, inl (k, refl))))))
        (λ e h. (refl, inl h))

  -- If permission codes are unique, `assert_permission` lets through exactly the users to whom the tables grant the code, and
  -- refuses the others as forbidden. It writes nothing, and its other errors are those of the
  -- check: that of a failing query, and that no permission has the code.
  pub assert_permission_lem :
      {F : Type 0} (user_id : ℕ) (code : String)
      → UniqueCodes
      → ReadsIf F
          (assert_permission user_id code)
          w
          (λ _. Grants w user_id code)
          (λ e.
            CheckFails F code e ⊎ ((e ≡ forbidden "permission denied") × (¬ Grants w user_id code)))
  unfolding assert_permission
  assert_permission_lem user_id code unique =
      Runs-reads _ (user_has_permission_lem user_id code unique)
        (λ b h.
          Runs-if b _ _ (λ e. Runs-pure tt (refl, h.0 e))
            (λ e. Runs-raise _ (refl, inr (refl, λ g. ground (arith, h.1 g)))))
        (λ e h. (refl, inl h))

  module _ (parse_uuid : String → Option String) where
    -- the user that the claims name
    abbrev pub IsNamed : String → User → Type 0
    IsNamed pid user = Memᴰ user (all_rows on_users w) × (parse_uuid pid ≡ some user.pid)

    pub find_by_pid_lem :
        {F : Type 0} (pid : String)
        → ReadsIf F (find_by_pid parse_uuid pid) w (IsNamed pid) (λ e. Unit)
    unfolding find_by_pid
    find_by_pid_lem pid =
        Runs-check _ _
          (λ uuid parsed.
            Runs-bind-load _ _ (Runs-lift _ (refl, named uuid (ok_or-eq-ok _ _ parsed)))
              (λ _. (refl, tt)))
          (λ e h. (refl, tt))
      where
        named :
            (uuid : String)
            → parse_uuid pid ≡ some uuid
            → Ends
                (IsNamed pid)
                (λ e. Unit)
                (ok_or (find_one on_users (λ u. str_eq u.pid uuid) w) entity_not_found)
        named uuid parsed = elim (Option-cases (find_one on_users (λ u. str_eq u.pid uuid) w)) [
          | inl e ↦ rw e tt
          | inr (u, e) ↦
              let (m, c) = find_one-some on_users (λ u. str_eq u.pid uuid) w e in
              rw e (m, rw ((eq_iff u.pid uuid).0 c) parsed)
        ]

    -- If permission codes are unique, every handler that goes on after `authorize` acts for the user that the claims name, and the
    -- tables grant this user the permission. `authorize` writes nothing.
    pub authorize_lem :
        {F : Type 0} (pid permission : String)
        → UniqueCodes
        → ReadsIf F
            (authorize parse_uuid pid permission)
            w
            (λ user. IsNamed pid user × Grants w user.id permission)
            (λ e. Unit)
    unfolding authorize
    authorize_lem pid permission unique =
        Runs-reads _ (find_by_pid_lem pid)
          (λ user named.
            Runs-reads _ (assert_permission_lem user.id permission unique)
              (λ u granted. Runs-pure user (refl, (named, granted))) (λ e h. (refl, tt)))
          (λ e h. (refl, tt))

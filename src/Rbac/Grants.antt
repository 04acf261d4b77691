-- ===== src/Rbac/Grants.antt =====
-- Who may do what, stated on the tables: the enabled roles that are linked to a user, and the
-- permissions that are linked to those.
use mathlib.Core.Bool.{and-eq-true_iff}
use mathlib.Core.List.{Memᴰ}
use mathlib.Core.List.Memᴰ
use rust_template.Base.{
  ℕ, String, ◌≡◌, refl, sym, ap, ◌∙◌, ◌≢◌, ◌⊎◌, inl, inr, true, List, [], ◌∷◌, map, ◌==◌, ==_iff,
  is_empty, any_of_mem, mem_of_any,
}
use rust_template.Base.Sort.{mem-sort_by_to, mem-sort_by_from}
use rust_template.Api.{Result, ok, err}
use rust_template.Db.Interface.{Database}
use rust_template.Db.Handler.{Handler, RunsIf, Runs-query_if, query, Runs-pure, ◌>>=◌}
use rust_template.Db.Rules.{ReadsIf, Runs-if, Runs-reads}
use rust_template.Db.Rows.{select, all_rows, mem-select_to, mem-select_from}
use rust_template.Entities.Access.{UserRole, Role, Permission, RolePermission}
use rust_template.World.{World, on_user_roles, on_roles, on_permissions, on_role_permissions}
use rust_template.Rbac.Ids.{unique_ids, is_in, mem-unique_ids_to, mem-unique_ids_from}
use rust_template.Rbac.Roles.{
  model_error, as_model_error, load, super_admin_role, enabled_roles, load_user_roles,
}

module _ {F W A : Type 0} {w : W} {Q : Result A → W → Type 0} where
  pub Runs-load : (f : W → A) → Q (ok (f w)) w → (F → Q (err model_error) w) → RunsIf F (load f) w Q
  unfolding load
  Runs-load f good bad =
      let q : RunsIf F (query f) w (λ r w'. Q (as_model_error r) w') = Runs-query_if f good bad in
      record { ends = q.ends; left = q.left }

module _ {F W A B : Type 0} {w : W} {Q : Result B → W → Type 0} where
  -- after a query of this module
  pub Runs-bind-load :
      (g : W → A) (f : A → Handler W B)
      → RunsIf F (f (g w)) w Q
      → (F → Q (err model_error) w)
      → RunsIf F (load g >>= f) w Q
  Runs-bind-load g f good bad =
      Runs-reads {P = λ a. a ≡ g w} {E = λ e. F × (e ≡ model_error)} f
        (Runs-load g (refl, refl) (λ k. (refl, (k, refl)))) (λ a e. rw e good)
        (λ d h. rw h.1 (bad h.0))

pub is_in_empty : (ids : List ℕ) (a : ℕ) → is_empty ids ≡ true → is_in ids a ≢ true
is_in_empty [] a h e = cc
is_in_empty (x ∷ ids) a h e = cc

-- A member of the ids that some rows carry.
module _ {R : Type 0} (key : R → ℕ) where
  pub mem_ids_to : (rs : List R) {a : ℕ} → Memᴰ a (map key rs) → (r : R) × Memᴰ r rs × (key r ≡ a)
  mem_ids_to [] m = elim m [ ]
  mem_ids_to (x ∷ rs) m = elim (Memᴰ.cases_cons m) [
    | inl q ↦ (x, Memᴰ.head refl, sym q)
    | inr k ↦ let (r, j, e) = mem_ids_to rs k in (r, Memᴰ.tail j, e)
  ]

  pub mem_ids_from : {r : R} {rs : List R} → Memᴰ r rs → Memᴰ (key r) (map key rs)
  mem_ids_from (Memᴰ.head q) = Memᴰ.head (ap key q)
  mem_ids_from (Memᴰ.tail m) = Memᴰ.tail (mem_ids_from m)

  pub is_in_ids_to :
      (rs : List R) (a : ℕ)
      → is_in (unique_ids (map key rs)) a ≡ true
      → (r : R) × Memᴰ r rs × (key r ≡ a)
  is_in_ids_to rs a h =
      let (i, m, e) = mem_of_any (λ i. i == a) _ h in
      let (r, k, q) = mem_ids_to rs (mem-unique_ids_to (map key rs) m) in
      (r, k, q ∙ (==_iff i a).0 e)

  pub is_in_ids_from :
      (rs : List R) {r : R} (a : ℕ)
      → Memᴰ r rs
      → key r ≡ a
      → is_in (unique_ids (map key rs)) a ≡ true
  is_in_ids_from rs {r} a m e =
      any_of_mem (λ i. i == a) (mem-unique_ids_from (map key rs) (mem_ids_from m))
        ((==_iff (key r) a).1 e)

module _ {db : Database} (w : World db) where
  -- an enabled role that is linked to the user
  pub record HasRole (user_id : ℕ) (role : Role) : Type 0 where
    pub link : UserRole
    pub link_listed : Memᴰ link (all_rows on_user_roles w)
    pub of_user : link.user_id ≡ user_id
    pub of_role : link.role_id ≡ role.id
    pub listed : Memᴰ role (all_rows on_roles w)
    pub enabled : role.enabled ≡ true

  pub record IsSuperAdmin (user_id : ℕ) : Type 0 where
    pub role : Role
    pub has : HasRole user_id role
    pub super : role.code ≡ super_admin_role

  -- a permission with that code, linked to a role of the user
  pub record HasLinked (user_id : ℕ) (code : String) : Type 0 where
    pub role : Role
    pub has : HasRole user_id role
    pub permission : Permission
    pub permission_listed : Memᴰ permission (all_rows on_permissions w)
    pub same_code : permission.code ≡ code
    pub link : RolePermission
    pub link_listed : Memᴰ link (all_rows on_role_permissions w)
    pub of_role : link.role_id ≡ role.id
    pub of_permission : link.permission_id ≡ permission.id

  abbrev pub Grants : ℕ → String → Type 0
  Grants user_id code = IsSuperAdmin user_id ⊎ HasLinked user_id code

  -- `roles` are exactly the user's enabled roles.
  abbrev pub AreRolesOf : ℕ → List Role → Type 0
  AreRolesOf user_id roles =
      (role : Role)
      → (Memᴰ role roles → HasRole user_id role) × (HasRole user_id role → Memᴰ role roles)

  links_of : ℕ → List UserRole
  links_of user_id = select on_user_roles (λ l. l.user_id == user_id) w

  roles_of : ℕ → List Role
  roles_of user_id = enabled_roles (unique_ids (map (λ l. l.role_id) (links_of user_id))) w

  roles_of_to : (user_id : ℕ) (role : Role) → Memᴰ role (roles_of user_id) → HasRole user_id role
  unfolding roles_of enabled_roles links_of
  roles_of_to user_id role m =
      let (listed, c) = mem-select_to on_roles _ w (mem-sort_by_to _ _ m) in
      let (l, k, e) =
        is_in_ids_to (λ (l : UserRole). l.role_id) (links_of user_id) role.id
          ((and-eq-true_iff _ _).0 c).0 in
      let (ll, u) = mem-select_to on_user_roles _ w k in
      record {
        link = l;
        link_listed = ll;
        of_user = (==_iff _ _).0 u;
        of_role = e;
        listed = listed;
        enabled = ((and-eq-true_iff _ _).0 c).1;
      }

  roles_of_from : (user_id : ℕ) (role : Role) → HasRole user_id role → Memᴰ role (roles_of user_id)
  unfolding roles_of enabled_roles links_of
  roles_of_from user_id role h =
      let k =
        mem-select_from on_user_roles (λ l. l.user_id == user_id) w h.link_listed
          ((==_iff _ _).1 h.of_user) in
      let i = is_in_ids_from (λ (l : UserRole). l.role_id) (links_of user_id) role.id k h.of_role in
      mem-sort_by_from _ (mem-select_from on_roles _ w h.listed (rw (i, h.enabled)))

  no_roles :
      (user_id : ℕ)
      → is_empty (unique_ids (map (λ l. l.role_id) (links_of user_id))) ≡ true
      → AreRolesOf user_id []
  unfolding links_of
  no_roles user_id none_linked role = (
    λ m. elim m [ ],
    λ h.
        let k =
          mem-select_from on_user_roles (λ l. l.user_id == user_id) w h.link_listed
            ((==_iff _ _).1 h.of_user) in
        let i =
          is_in_ids_from (λ (l : UserRole). l.role_id) (links_of user_id) role.id k h.of_role in
        absurd (is_in_empty _ role.id none_linked i),
  )

  -- `load_user_roles` loads exactly the enabled roles that are linked to the user, and writes
  -- nothing; its only error is that of a failing query.
  pub load_user_roles_lem :
      {F : Type 0} (user_id : ℕ)
      → ReadsIf F (load_user_roles user_id) w (AreRolesOf user_id) (λ e. F × (e ≡ model_error))
  unfolding load_user_roles links_of roles_of
  load_user_roles_lem user_id =
      Runs-bind-load (select on_user_roles (λ l. l.user_id == user_id)) _
        (Runs-if _ _ _ (λ e. Runs-pure [] (refl, no_roles user_id e))
          (λ e.
            Runs-load _ (refl, λ role. (roles_of_to user_id role, roles_of_from user_id role))
              (λ k. (refl, (k, refl)))))
        (λ k. (refl, (k, refl)))

-- ===== src/Auth/Switching.antt =====
-- `switch_current_department`: a user works only in a department that is the user's.
use mathlib.Core.Bool.{and-eq-true_iff}
use mathlib.Core.List.{Memᴰ}
use rust_template.Base.{
  ℕ, String, ◌≡◌, refl, ap, Bool, true, false, not, Option, none, some, ==_iff, is_none, is_some_of,
}
use rust_template.Env.{Env}
use rust_template.Api.{Result, ok, err, ok_or-eq-ok}
use rust_template.Db.Interface.{Database}
use rust_template.Db.Handler.{Runs, Runs-pure, Runs-raise, Runs-bind}
use rust_template.Db.Rules.{Reads, Runs-if, Runs-reads, Runs-check, Runs-bind-query}
use rust_template.Db.Rows.{row, all_rows, updated, find_one, find_one-some}
use rust_template.Entities.Access.{User, UserDepartment}
use rust_template.Entities.Places.{Department, Tenant}
use rust_template.World.{World, on_users, on_departments, on_tenants, on_user_departments}
use rust_template.Rbac.Check.{IsNamed, find_by_pid_lem}
use rust_template.Auth.Secrets.{Secrets}
use rust_template.Auth.Departments.{
  with_department, validate_current_department, validated, switch_current_department,
}
use rust_template.Auth.Lockout.{UsersKeyed, UpdateEnds, update_user_lem}

module _ {db : Database} (w : World db) where
  -- the user may work in the department
  pub record MayWorkIn (user : User) (department_id : ℕ) : Type 0 where
    pub department : Department
    pub stored : row on_departments department_id w ≡ some department
    pub same_tenant : user.tenant_id ≡ some department.tenant_id
    pub enabled : department.enabled ≡ true
    pub tenant : Tenant
    pub tenant_stored : row on_tenants department.tenant_id w ≡ some tenant
    pub departments_enabled : tenant.departments_enabled ≡ true
    pub link : UserDepartment
    pub assigned : Memᴰ link (all_rows on_user_departments w)
    pub of_user : link.user_id ≡ user.id
    pub of_department : link.department_id ≡ department_id

  abbrev pub MaySelect : User → Option ℕ → Type 0
  MaySelect user none = Unit
  MaySelect user (some department_id) = MayWorkIn user department_id

is_some_of_lem : (o : Option ℕ) (i : ℕ) → is_some_of o i ≡ true → o ≡ some i
is_some_of_lem none i h = cc
is_some_of_lem (some j) i h = ap some ((==_iff j i).0 h)

some_of : {A : Type 0} (o : Option A) → is_none o ≡ false → (a : A) × (o ≡ some a)
some_of none h = cc
some_of (some a) h = (a, refl)

true_of : (b : Bool) → not b ≡ false → b ≡ true
true_of true h = refl
true_of false h = cc

module _ {db : Database} (env : Env) (secrets : Secrets) (w : World db) where
  pub validate_current_department_lem :
      (user : User) (department_id : ℕ)
      → Reads
          (validate_current_department env secrets user department_id)
          w
          (λ _. MayWorkIn w user department_id)
          (λ _. Unit)
  unfolding validate_current_department
  validate_current_department_lem user department_id =
      Runs-bind-query _ _
        (Runs-check _ _
          (λ department stored.
            Runs-if (not (is_some_of user.tenant_id department.tenant_id)) _ _
              (λ _. Runs-raise _ (refl, tt))
              (λ tenant_ok.
                Runs-if (not department.enabled) _ _ (λ _. Runs-raise _ (refl, tt))
                  (λ enabled.
                    Runs-bind-query _ _
                      (Runs-check _ _
                        (λ tenant owned.
                          Runs-if (not tenant.departments_enabled) _ _
                            (λ _. Runs-raise _ (refl, tt))
                            (λ allowed.
                              Runs-bind-query _ _
                                (Runs-if (is_none (find_one on_user_departments _ w)) _ _
                                  (λ _. Runs-raise _ (refl, tt))
                                  (λ there.
                                    let (l, e) = some_of _ there in
                                    let (m, c) = find_one-some on_user_departments _ w e in
                                    let (u, d) = (and-eq-true_iff _ _).0 c in
                                    Runs-pure tt (
                                      refl,
                                      record {
                                        department = department;
                                        stored = ok_or-eq-ok _ _ stored;
                                        same_tenant =
                                            is_some_of_lem user.tenant_id department.tenant_id
                                              (true_of _ tenant_ok);
                                        enabled = true_of department.enabled enabled;
                                        tenant = tenant;
                                        tenant_stored = ok_or-eq-ok _ _ owned;
                                        departments_enabled =
                                            true_of tenant.departments_enabled allowed;
                                        link = l;
                                        assigned = m;
                                        of_user = (==_iff _ _).0 u;
                                        of_department = (==_iff _ _).0 d;
                                      },
                                    )))
                                (refl, tt)))
                        (λ e h. (refl, tt)))
                      (refl, tt))))
          (λ e h. (refl, tt)))
        (refl, tt)

  validated_lem :
      (user : User) (department_id : Option ℕ)
      → Reads
          (validated env secrets user department_id)
          w
          (λ _. MaySelect w user department_id)
          (λ _. Unit)
  unfolding validated
  validated_lem user none = Runs-pure tt (refl, tt)
  validated_lem user (some department_id) = validate_current_department_lem user department_id

  -- the user that the claims name, who may work in the department that is set
  pub record IsSwitched (pid : String) (department_id : Option ℕ) (w' : World db) : Type 0 where
    pub user : User
    pub named : IsNamed w env.parse_uuid pid user
    pub allowed : MaySelect w user department_id
    pub set : w' ≡ updated on_users user.id (with_department department_id) w

  pub SwitchEnds : String → Option ℕ → Result (Unit {0}) → World db → Type 0
  SwitchEnds pid department_id (ok done) w' = IsSwitched pid department_id w'
  SwitchEnds pid department_id (err e) w' = w' ≡ w

  -- If the primary key finds each stored user, `switch_current_department` sets the department only
  -- for the user that the claims name, and only to none or to an enabled department of the user's
  -- tenant, which uses departments, that is assigned to the user. If it fails, nothing has changed.
  pub switch_current_department_lem :
      (pid : String) (department_id : Option ℕ)
      → UsersKeyed w
      → Runs
          (switch_current_department env secrets pid department_id)
          w
          (SwitchEnds pid department_id)
  unfolding switch_current_department SwitchEnds UpdateEnds
  switch_current_department_lem pid department_id keys =
      Runs-reads _ (find_by_pid_lem w env.parse_uuid pid)
        (λ user named.
          Runs-reads _ (validated_lem user department_id)
            (λ _ allowed.
              Runs-bind (UpdateEnds Unit secrets user (with_department department_id) w) _ _
                (update_user_lem env secrets user (with_department department_id) w (λ u. refl)
                  (keys.at user named.0))
                (λ u w' k.
                  Runs-pure tt
                    (record { user = user; named = named; allowed = allowed; set = k.1 }))
                (λ e w' k. k.0))
            (λ e h. refl))
        (λ e h. refl)

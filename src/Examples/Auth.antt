-- ===== src/Examples/Auth.antt =====
-- The theorems on users and sessions at the example tables.
use mathlib.Core.List.{Memᴰ}
use Prim.Native.String.{◌++◌ as str_append}
use rust_template.Base.{String, ◌≡◌, refl, Bool, true, none, some, [], ◌∷◌, str_eq}
use rust_template.Api.{ok}
use rust_template.Db.Handler.{Runs, RunsIf}
use rust_template.Db.Rules.{ReadsIf}
use rust_template.Db.Rows.{select, find_one, row, all_rows}
use rust_template.Entities.Access.{User}
use rust_template.World.{on_users}
use rust_template.Rbac.Roles.{model_error}
use rust_template.Rbac.Scope.{resolve_data_scope}
use rust_template.Rbac.Justified.{Justified}
use rust_template.Rbac.Scoped.{resolve_data_scope_lem}
use rust_template.Rbac.Permissions.{load_user_permissions, AreGranted, load_user_permissions_lem}
use rust_template.Auth.Secrets.{Secrets}
use rust_template.Auth.Users.{LoginParams}
use rust_template.Auth.Login.{login, refresh}
use rust_template.Auth.Departments.{switch_current_department}
use rust_template.Auth.Rotation.{TokensKeyed, RefreshEnds, refresh_lem}
use rust_template.Auth.Lockout.{UsersKeyed}
use rust_template.Auth.Entry.{LoginEnds, login_lem}
use rust_template.Auth.Switching.{SwitchEnds, switch_current_department_lem}
use rust_template.Examples.{env, admin, clerk, guest, session, tables, only_one, tables-UniqueCodes}

abbrev secrets : Secrets
secrets = record {
  hash_token = λ t. str_append "digest:" t;
  random_string = λ n. "random";
  verify_password = λ password hash. str_eq (str_append "hash:" password) hash;
  hash_password = λ password. some (str_append "hash:" password);
  new_uuid = "uuid";
  get_jwt_config = ok tt;
  generate_token = λ pid. some (str_append "jwt:" pid);
  local_midnight = some 1000;
  is_email = λ email. true;
  is_allowed_domain = λ email. true;
  mail = ok tt;
  audit = none;
}

tables-UsersKeyed : UsersKeyed tables
unfolding all_rows row find_one select
tables-UsersKeyed = record { at = λ u m. keyed m }
  where
    keyed : {u : User} → Memᴰ u (admin ∷ clerk ∷ guest ∷ []) → row on_users u.id tables ≡ some u
    keyed (Memᴰ.head e) = rw e refl
    keyed (Memᴰ.tail (Memᴰ.head e)) = rw e refl
    keyed (Memᴰ.tail (Memᴰ.tail (Memᴰ.head e))) = rw e refl
    keyed (Memᴰ.tail (Memᴰ.tail (Memᴰ.tail m))) = elim m [ ]

tables-TokensKeyed : TokensKeyed env secrets tables
unfolding all_rows row find_one select
tables-TokensKeyed = record { at = λ t m. rw (only_one session m) refl }

abbrev right : LoginParams
right = record { email = "a@b"; password = "pw" }

login_lem_example : RunsIf ⊥ (login env secrets right) tables (LoginEnds ⊥ env secrets right tables)
login_lem_example = login_lem ⊥ env secrets right tables tables-UsersKeyed

refresh_lem_example : Runs (refresh env secrets "old") tables (RefreshEnds env secrets tables "old")
refresh_lem_example = refresh_lem env secrets tables "old" tables-TokensKeyed

switch_current_department_lem_example :
    Runs
      (switch_current_department env secrets "admin" (some 1))
      tables
      (SwitchEnds env secrets tables "admin" (some 1))
switch_current_department_lem_example =
    switch_current_department_lem env secrets tables "admin" (some 1) tables-UsersKeyed

resolve_data_scope_lem_example :
    ReadsIf ⊥
      (resolve_data_scope clerk)
      tables
      (Justified tables clerk)
      (λ e. ⊥ × (e ≡ model_error))
resolve_data_scope_lem_example = resolve_data_scope_lem tables clerk

abbrev text_le : String → String → Bool
text_le a b = true

load_user_permissions_lem_example :
    ReadsIf ⊥
      (load_user_permissions text_le 2)
      tables
      (AreGranted text_le tables 2 tables-UniqueCodes)
      (λ e. ⊥ × (e ≡ model_error))
load_user_permissions_lem_example = load_user_permissions_lem text_le tables 2 tables-UniqueCodes

-- ===== src/Auth/Lockout.antt =====
-- `login`: the steps that change the user's row, and what stays as it was.
use mathlib.Core.List.{Memᴰ}
use rust_template.Base.{
  ℕ, ◌+◌, ◌-◌, ◌^◌, ◌≤◌, ◌<◌, ◌≡◌, refl, ap, ◌∙◌, ◌⊎◌, inl, inr, true, false, not, ◌&&◌, Option,
  none, some, leb, ◌==◌, ==_refl, is_none, arith, head?,
}
use rust_template.Env.{Env}
use rust_template.Api.{Result, ok, err, ok_or-eq-ok, ok_or-eq-err}
use rust_template.Db.Interface.{Database}
use rust_template.Db.Handler.{
  RunsIf, Runs-pure, Runs-raise, Runs-bind, Runs-weaken, Runs-attempt, attempt, pure, ◌>>=◌,
}
use rust_template.Db.Rules.{Runs-if, Runs-check}
use rust_template.Db.Rows.{
  select, find_one, row, all_rows, insert, inserted, updated, row-updated, Runs-insert,
  Runs-update_if,
}
use rust_template.Entities.Access.{User}
use rust_template.Entities.Sessions.{RefreshToken, OperationLog}
use rust_template.World.{World, on_users, on_refresh_tokens, on_operation_logs}
use rust_template.Auth.Secrets.{AuditRequest, Secrets}
use rust_template.Auth.Logs.{LogInput, log_of, write_log, record_log}
use rust_template.Auth.Users.{is_valid, update_user}
use rust_template.Auth.Login.{
  end_of_today, next_attempts, with_failure, with_lock, without_failures, update_failed_login,
  reset_login_failures,
}

-- no failure is stored
clean_of :
    (attempts : ℕ) (until last : Option ℕ)
    → (attempts == 0 && is_none until && is_none last) ≡ true
    → (attempts ≡ 0) × (until ≡ none)
clean_of attempts none last h = (ground arith, refl)
clean_of attempts (some until) last h = absurd (ground arith)

module _ {db : Database} where
  -- The primary key of `users` finds each stored user.
  pub record UsersKeyed (w : World db) : Type 0 where
    pub at : (u : User) → Memᴰ u (all_rows on_users w) → row on_users u.id w ≡ some u

  -- the tables of users and of tokens are as they were
  pub record SessionsKept (w w' : World db) : Type 0 where
    pub users : w'.users ≡ w.users
    pub tokens : w'.refresh_tokens ≡ w.refresh_tokens

  pub row_same :
      (w w' : World db) (id : ℕ) → w'.users ≡ w.users → row on_users id w' ≡ row on_users id w
  unfolding row find_one select
  row_same w w' id e = ap (λ t. head? (db.find User (λ r. r.id == id) t)) e

  pub token_same :
      (w w' : World db) (id : ℕ)
      → w'.refresh_tokens ≡ w.refresh_tokens
      → row on_refresh_tokens id w' ≡ row on_refresh_tokens id w
  unfolding row find_one select
  token_same w w' id e = ap (λ t. head? (db.find RefreshToken (λ r. r.id == id) t)) e

  -- an entry of the log was written or was not
  unfoldable pub LogEnds : World db → Result (Unit {0}) → World db → Type 0
  LogEnds w (ok done) w' = SessionsKept w w'
  LogEnds w (err e) w' = ⊥

  -- A row is updated, or it stays because a call failed or because the row is not valid.
  unfoldable pub UpdateEnds :
      Type 0 → Secrets → User → (User → User) → World db → Result User → World db → Type 0
  UpdateEnds F secrets user change w (ok u) w' =
      (u ≡ change user) × (w' ≡ updated on_users user.id change w)
  UpdateEnds F secrets user change w (err e) w' =
      (w' ≡ w) × (F ⊎ (is_valid secrets (change user) ≡ false))

-- Why a failure is not counted, or not cleared, though no call fails: the row is not valid, or the
-- account is to be locked and the end of the day cannot be computed.
module _ (secrets : Secrets) where
  abbrev pub IsInvalid : User → Type 0
  IsInvalid user = is_valid secrets user ≡ false

  abbrev pub HasNoLockTime : User → Type 0
  HasNoLockTime user = (2 ≤ user.failed_login_attempts) × (secrets.local_midnight ≡ none)

  not_updated :
      {F : Type 0} (user : User) → F ⊎ IsInvalid user → F ⊎ IsInvalid user ⊎ HasNoLockTime user
  not_updated user (inl k) = inl k
  not_updated user (inr i) = inr (inl i)

module _ {db : Database} (env : Env) (secrets : Secrets) where
  written_lem :
      {F : Type 0} (w : World db) (mk : ℕ → OperationLog)
      → RunsIf F (attempt (insert on_operation_logs mk) >>= λ written. pure tt) w (LogEnds w)
  unfolding LogEnds inserted
  written_lem w mk =
      Runs-bind Kept _ _
        (Runs-attempt (
          Runs-insert on_operation_logs mk (record { users = refl; tokens = refl })
            (record { users = refl; tokens = refl })))
        (λ r w' k. Runs-pure tt k) (λ e w' k. k)
    where
      Kept : Result (Result OperationLog) → World db → Type 0
      Kept (ok r) w' = SessionsKept w w'
      Kept (err e) w' = ⊥

  pub record_log_lem :
      {F : Type 0} (w : World db) (input : LogInput)
      → RunsIf F (record_log env secrets input) w (LogEnds w)
  unfolding record_log write_log LogEnds
  record_log_lem {F} w input = by_request secrets.audit
    where
      by_request :
          (request : Option AuditRequest) → RunsIf F (write_log env input request) w (LogEnds w)
      by_request none = written_lem w (log_of env input none none none)
      by_request (some request) =
          Runs-if (not request.enabled) _ _
            (λ _. Runs-pure tt (record { users = refl; tokens = refl }))
            (λ _.
              written_lem w
                (log_of env input request.ip request.user_agent (some request.duration)))

  pub update_user_lem :
      {F : Type 0} (user : User) (change : User → User) (w : World db)
      → ((u : User) → (change u).id ≡ u.id)
      → row on_users user.id w ≡ some user
      → RunsIf F (update_user env secrets user change) w (UpdateEnds F secrets user change w)
  unfolding update_user UpdateEnds
  update_user_lem user change w key stored =
      Runs-if (is_valid secrets (change user)) _ _
        (λ _.
          Runs-update_if on_users user.id change user key stored (refl, refl) (λ k. (refl, inl k)))
        (λ invalid. Runs-raise _ (refl, inr invalid))

  row-after :
      (user : User) (change : User → User) (w w' : World db)
      → ((u : User) → (change u).id ≡ u.id)
      → row on_users user.id w ≡ some user
      → w' ≡ updated on_users user.id change w
      → row on_users user.id w' ≡ some (change user)
  row-after user change w w' key stored e =
      rw e (row-updated on_users user.id user.id change w key ∙ rw (==_refl user.id, stored) refl)

  -- A wrong password was counted, and from the third on the account is locked until the end of the
  -- day.
  pub record IsCounted (user : User) (attempts : ℕ) (w' : World db) : Type 0 where
    pub counted :
        user.failed_login_attempts < 2 ^ 31 - 1 → attempts ≡ user.failed_login_attempts + 1
    pub saturated : user.failed_login_attempts ≤ attempts
    pub stored : User
    pub is_stored : row on_users user.id w' ≡ some stored
    pub attempts_stored : stored.failed_login_attempts ≡ attempts
    pub lock :
        3 ≤ attempts
        → (until : ℕ) × (secrets.local_midnight ≡ some until) × (stored.locked_until ≡ some until)

  unfoldable pub CountEnds : Type 0 → User → World db → Result ℕ → World db → Type 0
  CountEnds F user w (ok attempts) w' = IsCounted user attempts w'
  CountEnds F user w (err e) w' =
      (w' ≡ w) × (F ⊎ IsInvalid secrets user ⊎ HasNoLockTime secrets user)

  pub update_failed_login_lem :
      {F : Type 0} (user : User) (w : World db)
      → row on_users user.id w ≡ some user
      → RunsIf F (update_failed_login env secrets user) w (CountEnds F user w)
  unfolding update_failed_login next_attempts end_of_today CountEnds UpdateEnds with_lock
      with_failure is_valid
  update_failed_login_lem {F} user w stored =
      Runs-if (leb 3 (next_attempts env secrets user)) _ _
        (λ many.
          Runs-check (end_of_today env secrets) _
            (λ until today.
              let change = with_lock env secrets (next_attempts env secrets user) until in
              Runs-bind (UpdateEnds F secrets user change w) _ _
                (update_user_lem user change w (λ u. refl) stored)
                (λ u w' k. Runs-pure _ (record {
                  counted = λ below. ground arith;
                  saturated = ground arith;
                  stored = change user;
                  is_stored = row-after user change w w' (λ v. refl) stored k.1;
                  attempts_stored = refl;
                  lock = λ _. (until, ok_or-eq-ok _ _ today, refl);
                }))
                (λ e w' k. (k.0, not_updated secrets user k.1)))
            (λ e h. (refl, inr (inr (ground (arith, many), (ok_or-eq-err _ _ h).0)))))
        (λ few.
          let change = with_failure env secrets (next_attempts env secrets user) in
          Runs-bind (UpdateEnds F secrets user change w) _ _
            (update_user_lem user change w (λ u. refl) stored)
            (λ u w' k. Runs-pure _ (record {
              counted = λ below. ground arith;
              saturated = ground arith;
              stored = change user;
              is_stored = row-after user change w w' (λ v. refl) stored k.1;
              attempts_stored = refl;
              lock = λ three. absurd (ground (arith, few));
            }))
            (λ e w' k. (k.0, not_updated secrets user k.1)))

  -- The failures of the user's row are cleared.
  pub record IsCleared (user u : User) (w' : World db) : Type 0 where
    pub same_id : u.id ≡ user.id
    pub is_stored : row on_users user.id w' ≡ some u
    pub no_attempts : u.failed_login_attempts ≡ 0
    pub unlocked : u.locked_until ≡ none
    pub same_password : u.password ≡ user.password

  unfoldable pub ClearEnds : Type 0 → User → World db → Result User → World db → Type 0
  ClearEnds F user w (ok u) w' = IsCleared user u w'
  ClearEnds F user w (err e) w' = (w' ≡ w) × (F ⊎ IsInvalid secrets user)

  pub reset_login_failures_lem :
      {F : Type 0} (user : User) (w : World db)
      → row on_users user.id w ≡ some user
      → RunsIf F (reset_login_failures env secrets user) w (ClearEnds F user w)
  unfolding reset_login_failures ClearEnds UpdateEnds without_failures is_valid
  reset_login_failures_lem {F} user w stored =
      Runs-if
        (user.failed_login_attempts == 0
          && is_none user.locked_until
          && is_none user.last_failed_login_at)
        _ _
        (λ clean.
          let (zero_attempts, unlocked) =
            clean_of user.failed_login_attempts user.locked_until user.last_failed_login_at clean in
          Runs-pure user (record {
            same_id = refl;
            is_stored = stored;
            no_attempts = zero_attempts;
            unlocked = unlocked;
            same_password = refl;
          }))
        (λ dirty.
          Runs-weaken (update_user_lem user (without_failures env secrets) w (λ u. refl) stored)
            cleared)
    where
      cleared :
          (r : Result User) (w' : World db)
          → UpdateEnds F secrets user (without_failures env secrets) w r w'
          → ClearEnds F user w r w'
      cleared (ok u) w' k = rw k.0 (record {
        same_id = refl;
        is_stored = row-after user (without_failures env secrets) w w' (λ v. refl) stored k.1;
        no_attempts = refl;
        unlocked = refl;
        same_password = refl;
      })
      cleared (err e) w' k = k

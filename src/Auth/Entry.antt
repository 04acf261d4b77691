-- ===== src/Auth/Entry.antt =====
-- Who gets in: `login` answers only for a stored user with the password, whose account is not
-- locked, and counts a wrong password.
use mathlib.Core.List.{Memᴰ}
use rust_template.Base.{
  ℕ, ◌≤◌, ◌<◌, ◌≢◌, String, ◌≡◌, refl, ap, ◌∙◌, ◌⊎◌, inl, inr, true, false, Option, none, some,
  str_eq, eq_iff, arith, Bool-cases,
}
use rust_template.Env.{Env}
use rust_template.Api.{ApiError, Result, ok, err, unauthorized}
use rust_template.Db.Interface.{Database}
use rust_template.Db.Handler.{RunsIf, Runs-pure, Runs-raise, Runs-bind, raise, ◌>>=◌}
use rust_template.Db.Rules.{Runs-if, Runs-reads, Runs-check}
use rust_template.Db.Rows.{row, all_rows, find_one, find_one-some, find_one-none}
use rust_template.Entities.Access.{User}
use rust_template.World.{World, on_users}
use rust_template.Auth.Secrets.{Secrets}
use rust_template.Auth.Lookup.{Lookup, found, missing, failed, of_option, Runs-look}
use rust_template.Auth.Logs.{LogInput, record_log}
use rust_template.Auth.Users.{LoginParams, find_by_email}
use rust_template.Auth.Login.{
  LoginResponse, locked_message, jwt_for_user, is_locked, wrong_password, login_response,
  accept_login, refuse_login, login_of, login,
}
use rust_template.Auth.Valid.{IssueEnds, issue_lem}
use rust_template.Auth.Rotation.{IsTokenOf, issued-IsTokenOf}
use rust_template.Auth.Lockout.{
  UsersKeyed, IsInvalid, HasNoLockTime, SessionsKept, LogEnds, record_log_lem, row_same, token_same,
  IsCounted, CountEnds, update_failed_login_lem, IsCleared, ClearEnds, reset_login_failures_lem,
}

module _ (F : Type 0) {db : Database} (env : Env) (secrets : Secrets) (params : LoginParams)
    (w : World db) where
  -- a stored user with the email whose account is not locked
  pub record IsCandidate (user : User) : Type 0 where
    pub listed : Memᴰ user (all_rows on_users w)
    pub same_email : user.email ≡ params.email
    pub unlocked : (until : ℕ) → user.locked_until ≡ some until → until ≤ env.now

  -- the user is let in: the failures are cleared, and a token for the user is stored
  pub record IsLetIn (response : LoginResponse) (w' : World db) : Type 0 where
    pub user : User
    pub candidate : IsCandidate user
    pub password : secrets.verify_password params.password user.password ≡ true
    pub cleared : User
    pub is_cleared : IsCleared env secrets user cleared w'
    pub signed : jwt_for_user env secrets cleared ≡ ok response.token
    pub token : IsTokenOf env secrets cleared response.refresh_token w'

  -- a wrong password is counted
  pub record IsRefused (e : ApiError) (w' : World db) : Type 0 where
    pub user : User
    pub candidate : IsCandidate user
    pub wrong : secrets.verify_password params.password user.password ≡ false
    pub attempts : ℕ
    pub answered : e ≡ wrong_password env secrets attempts
    pub counted : IsCounted env secrets user attempts w'

  -- the password was right, the failures are cleared, and then a call has failed or no token could
  -- be signed
  pub record IsInterrupted (e : ApiError) (w' : World db) : Type 0 where
    pub user : User
    pub candidate : IsCandidate user
    pub password : secrets.verify_password params.password user.password ≡ true
    pub cleared : User
    pub is_cleared : IsCleared env secrets user cleared w'
    pub reason : F ⊎ (jwt_for_user env secrets cleared ≡ err e)

  -- why a login fails
  pub data LoginFails (e : ApiError) (w' : World db) : Type 0 where
    by_call : F → w'.users ≡ w.users → LoginFails e w'
    unknown :
        ((u : User) → Memᴰ u (all_rows on_users w) → u.email ≢ params.email)
        → e ≡ unauthorized "Invalid credentials!"
        → w'.users ≡ w.users
        → LoginFails e w'
    locked :
        (user : User) (until : ℕ)
        → Memᴰ user (all_rows on_users w)
        → user.email ≡ params.email
        → user.locked_until ≡ some until
        → env.now < until
        → e ≡ unauthorized locked_message
        → w'.users ≡ w.users
        → LoginFails e w'
    invalid :
        (user : User)
        → IsCandidate user
        → IsInvalid secrets user
        → w'.users ≡ w.users
        → LoginFails e w'
    no_lock_time :
        (user : User)
        → IsCandidate user
        → secrets.verify_password params.password user.password ≡ false
        → HasNoLockTime secrets user
        → w'.users ≡ w.users
        → LoginFails e w'
    refused : IsRefused e w' → LoginFails e w'
    interrupted : IsInterrupted e w' → LoginFails e w'

  pub LoginEnds : Result LoginResponse → World db → Type 0
  LoginEnds (ok response) w' = IsLetIn response w'
  LoginEnds (err e) w' = LoginFails e w'

  -- An entry of the log changes nothing of this.
  IsCounted-log :
      (user : User) (attempts : ℕ) (w' w2 : World db)
      → SessionsKept w' w2
      → IsCounted env secrets user attempts w'
      → IsCounted env secrets user attempts w2
  IsCounted-log user attempts w' w2 kept c = record {
    counted = c.counted;
    saturated = c.saturated;
    stored = c.stored;
    is_stored = row_same w' w2 user.id kept.users ∙ c.is_stored;
    attempts_stored = c.attempts_stored;
    lock = c.lock;
  }

  users-IsCleared :
      (user u : User) (w' w2 : World db)
      → w2.users ≡ w'.users
      → IsCleared env secrets user u w'
      → IsCleared env secrets user u w2
  users-IsCleared user u w' w2 same c = record {
    same_id = c.same_id;
    is_stored = row_same w' w2 user.id same ∙ c.is_stored;
    no_attempts = c.no_attempts;
    unlocked = c.unlocked;
    same_password = c.same_password;
  }

  tokens-IsTokenOf :
      (user : User) (token : String) (w' w2 : World db)
      → w2.refresh_tokens ≡ w'.refresh_tokens
      → IsTokenOf env secrets user token w'
      → IsTokenOf env secrets user token w2
  tokens-IsTokenOf user token w' w2 same t = record {
    stored = t.stored;
    is_stored = token_same w' w2 t.stored.id same ∙ t.is_stored;
    digest = t.digest;
    of_user = t.of_user;
    unrevoked = t.unrevoked;
    unexpired = t.unexpired;
  }

  refuse_login_lem :
      (user : User)
      → IsCandidate user
      → secrets.verify_password params.password user.password ≡ false
      → row on_users user.id w ≡ some user
      → RunsIf F (refuse_login env secrets user) w LoginEnds
  unfolding refuse_login CountEnds LoginEnds LogEnds
  refuse_login_lem user candidate wrong stored =
      Runs-bind (CountEnds env secrets F user w) _ _
        (update_failed_login_lem env secrets user w stored)
        (λ attempts w' counted.
          Runs-bind (LogEnds w') _ _ (record_log_lem env secrets w' _)
            (λ done w2 kept. Runs-raise _ (
              LoginFails.refused (record {
                user = user;
                candidate = candidate;
                wrong = wrong;
                attempts = attempts;
                answered = refl;
                counted = IsCounted-log user attempts w' w2 kept counted;
              })))
            (λ e w2 k. absurd k))
        (λ e w' k. not_counted e w' (ap (λ v. v.users) k.0) k.1)
    where
      not_counted :
          (e : ApiError) (w' : World db)
          → w'.users ≡ w.users
          → F ⊎ IsInvalid secrets user ⊎ HasNoLockTime secrets user
          → LoginFails e w'
      not_counted e w' same (inl k) = LoginFails.by_call k same
      not_counted e w' same (inr (inl i)) = LoginFails.invalid user candidate i same
      not_counted e w' same (inr (inr n)) = LoginFails.no_lock_time user candidate wrong n same

  ResponseEnds : User → World db → Result LoginResponse → World db → Type 0
  ResponseEnds u w' (ok response) w2 =
      (jwt_for_user env secrets u ≡ ok response.token)
      × IsTokenOf env secrets u response.refresh_token w2
      × (w2.users ≡ w'.users)
  ResponseEnds u w' (err e) w2 = (w2.users ≡ w'.users) × (F ⊎ (jwt_for_user env secrets u ≡ err e))

  login_response_lem :
      (u : User) (w' : World db) → RunsIf F (login_response env secrets u) w' (ResponseEnds u w')
  unfolding login_response ResponseEnds IssueEnds
  login_response_lem u w' =
      Runs-check (jwt_for_user env secrets u) _
        (λ token signed.
          Runs-bind (IssueEnds env secrets F u w') _ _ (issue_lem env secrets u w')
            (λ issued w2 i.
              let (t, same) = issued-IsTokenOf env secrets u w' w2 issued i in
              Runs-pure _ (signed, t, same))
            (λ e w2 k. (ap (λ v. v.users) k.0, inl k.1)))
        (λ e h. (refl, inr h))

  accept_login_lem :
      (user : User)
      → IsCandidate user
      → secrets.verify_password params.password user.password ≡ true
      → row on_users user.id w ≡ some user
      → RunsIf F (accept_login env secrets user) w LoginEnds
  unfolding accept_login ResponseEnds ClearEnds LoginEnds LogEnds
  accept_login_lem user candidate right stored =
      Runs-bind (ClearEnds env secrets F user w) _ _
        (reset_login_failures_lem env secrets user w stored)
        (λ u w' cleared.
          Runs-bind (ResponseEnds u w') _ _ (login_response_lem u w')
            (λ response w2 k.
              Runs-bind (LogEnds w2) _ _ (record_log_lem env secrets w2 _)
                (λ done w3 kept. Runs-pure _ (record {
                  user = user;
                  candidate = candidate;
                  password = right;
                  cleared = u;
                  is_cleared = users-IsCleared user u w' w3 (kept.users ∙ k.2) cleared;
                  signed = k.0;
                  token = tokens-IsTokenOf u response.refresh_token w2 w3 kept.tokens k.1;
                }))
                (λ e w3 h. absurd h))
            (λ e w2 k. LoginFails.interrupted (record {
              user = user;
              candidate = candidate;
              password = right;
              cleared = u;
              is_cleared = users-IsCleared user u w' w2 k.0 cleared;
              reason = k.1;
            })))
        (λ e w' k. not_cleared e w' (ap (λ v. v.users) k.0) k.1)
    where
      not_cleared :
          (e : ApiError) (w' : World db)
          → w'.users ≡ w.users
          → F ⊎ IsInvalid secrets user
          → LoginFails e w'
      not_cleared e w' same (inl k) = LoginFails.by_call k same
      not_cleared e w' same (inr i) = LoginFails.invalid user candidate i same

  -- an entry of the log, then an error
  log_and_raise :
      (input : LogInput) (e : ApiError)
      → ((w' : World db) → w'.users ≡ w.users → LoginFails e w')
      → RunsIf F (record_log env secrets input >>= λ done. raise e) w LoginEnds
  unfolding LoginEnds LogEnds
  log_and_raise input e fails =
      Runs-bind (LogEnds w) _ _ (record_log_lem env secrets w input)
        (λ done w' kept. Runs-raise e (fails w' kept.users)) (λ d w' h. absurd h)

  Looked : Lookup User → Type 0
  Looked (found user) = Memᴰ user (all_rows on_users w) × (user.email ≡ params.email)
  Looked missing = (u : User) → Memᴰ u (all_rows on_users w) → u.email ≢ params.email
  Looked failed = F

  Looked-option :
      (o : Option User)
      → find_one on_users (λ u. str_eq u.email params.email) w ≡ o
      → Looked (of_option o)
  unfolding Looked
  Looked-option none e =
      λ u m same. cc (find_one-none on_users _ w e m, (eq_iff u.email params.email).1 same)
  Looked-option (some user) e =
      let (m, c) = find_one-some on_users _ w e in (m, (eq_iff user.email params.email).0 c)

  unlocked_of :
      (user : User)
      → is_locked env secrets user ≡ false
      → (until : ℕ) → user.locked_until ≡ some until
      → until ≤ env.now
  unfolding is_locked
  unlocked_of user h until e = ground (arith, e, h)

  locked_of :
      (user : User)
      → is_locked env secrets user ≡ true
      → (until : ℕ) × (user.locked_until ≡ some until) × (env.now < until)
  unfolding is_locked
  locked_of user h = by_time user.locked_until refl
    where
      by_time :
          (o : Option ℕ)
          → user.locked_until ≡ o
          → (until : ℕ) × (user.locked_until ≡ some until) × (env.now < until)
      by_time none e = absurd (ground (arith, e, h))
      by_time (some until) e = (until, e, ground (arith, e, h))

  login_of_lem :
      (l : Lookup User)
      → UsersKeyed w
      → Looked l
      → RunsIf F (login_of env secrets params l) w LoginEnds
  unfolding login_of Looked LoginEnds
  login_of_lem failed keys h = Runs-raise _ (LoginFails.by_call h refl)
  login_of_lem missing keys h = log_and_raise _ _ (λ w' same. LoginFails.unknown h refl same)
  login_of_lem (found user) keys h =
      Runs-if (is_locked env secrets user) _ _
        (λ is_over.
          let (until, stored, later) = locked_of user is_over in
          log_and_raise _ _
            (λ w' same. LoginFails.locked user until h.0 h.1 stored later refl same))
        (λ unlocked.
          let candidate : IsCandidate user = record {
            listed = h.0;
            same_email = h.1;
            unlocked = unlocked_of user unlocked;
          } in
          elim (Bool-cases (secrets.verify_password params.password user.password)) [
            | inl right ↦ rw right (accept_login_lem user candidate right (keys.at user h.0))
            | inr wrong ↦ rw wrong (refuse_login_lem user candidate wrong (keys.at user h.0))
          ])

  -- If the primary key finds each stored user: `login` answers only for a stored user with the
  -- email, whose account is not locked and whose password is given; the failed attempts are cleared
  -- and a valid token of the user is stored. A wrong password of such a user is counted, which locks
  -- the account from the third attempt on. It is not counted, the users being as they were, only if
  -- a call fails, the user's row is not valid, or the time of the lock cannot be computed. The other
  -- failures are these: no user has the email, or the user with it is locked, and then the users
  -- are as they were and the answer says so; or the password was right and, the failed attempts
  -- being cleared, a call failed or no token could be signed.
  pub login_lem : UsersKeyed w → RunsIf F (login env secrets params) w LoginEnds
  unfolding login find_by_email Looked
  login_lem keys =
      Runs-reads {P = Looked} {E = λ _. ⊥} _
        (Runs-look _ (refl, Looked-option _ refl) (λ k. (refl, k))) (λ l h. login_of_lem l keys h)
        (λ e h. absurd h)

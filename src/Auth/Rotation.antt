-- ===== src/Auth/Rotation.antt =====
-- `refresh` replaces a valid token by a new one, and keeps the old one usable if it fails.
use mathlib.Core.List.{Memᴰ}
use rust_template.Base.{
  ℕ, ◌≤◌, ◌<◌, String, ◌≡◌, refl, ◌∙◌, inl, inr, false, none, some, ◌==◌, ==_refl, arith,
  Bool-cases,
}
use rust_template.Env.{Env}
use rust_template.Api.{Result, ok, err, ok_or, ok_or-eq-ok}
use rust_template.Db.Interface.{Database}
use rust_template.Db.Handler.{Runs, Runs-pure, Runs-bind, pure, ◌>>=◌}
use rust_template.Db.Rules.{Runs-reads, Runs-check}
use rust_template.Db.Rows.{
  row, all_rows, inserted, updated, key-row, row-inserted, row-inserted_new, row-updated,
  Runs-update,
}
use rust_template.Entities.Access.{User}
use rust_template.Entities.Sessions.{RefreshToken}
use rust_template.World.{World, on_users, on_refresh_tokens}
use rust_template.Rbac.Grants.{Runs-bind-load}
use rust_template.Auth.Secrets.{Secrets}
use rust_template.Auth.Lookup.{Lookup, found, missing, failed, Runs-as_model}
use rust_template.Auth.Tokens.{IssuedRefreshToken, new_token, revoked, revoke_row}
use rust_template.Auth.Login.{LoginResponse, jwt_for_user, refresh_lookup, refresh}
use rust_template.Auth.Valid.{
  IsIssued, IssueEnds, issue_lem, IsValid, Valid, find_valid_by_token_lem,
}

-- the token that the lookup has found
found_of : (l : Lookup RefreshToken) {t : RefreshToken} → refresh_lookup l ≡ ok t → l ≡ found t
found_of (found a) h = ground (arith, h)
found_of missing h = cc
found_of failed h = cc

new_token-id :
    (env : Env) (secrets : Secrets) (user : User) (token : String) (days n : ℕ)
    → (new_token env secrets user token days n).id ≡ n
unfolding new_token
new_token-id env secrets user token days n = refl

module _ {db : Database} (env : Env) (secrets : Secrets) where
  -- The primary key of `refresh_tokens` finds each stored token.
  pub record TokensKeyed (w : World db) : Type 0 where
    pub at :
        (t : RefreshToken)
        → Memᴰ t (all_rows on_refresh_tokens w)
        → row on_refresh_tokens t.id w ≡ some t

  -- A given token was exchanged: it was valid and is revoked now, and the new one is stored for the
  -- same user, with a later end.
  pub record Exchanged (w : World db) (given : String) (response : LoginResponse) (w' : World db)
      : Type 0 where
    pub old : RefreshToken
    pub was_valid : IsValid env secrets w given old
    pub now_revoked :
        row on_refresh_tokens old.id w' ≡ some (record old { revoked_at = some env.now })
    pub user : User
    pub owner : row on_users old.user_id w ≡ some user
    pub new : RefreshToken
    pub was_new : row on_refresh_tokens new.id w ≡ none
    pub new_stored : row on_refresh_tokens new.id w' ≡ some new
    pub new_digest : new.token_hash ≡ secrets.hash_token response.refresh_token
    pub same_user : new.user_id ≡ old.user_id
    pub new_unrevoked : new.revoked_at ≡ none
    pub new_unexpired : env.now < new.expires_at

  -- every stored token is as it was
  pub TokensKept : World db → World db → Type 0
  TokensKept w w' =
      (t : RefreshToken)
      → row on_refresh_tokens t.id w ≡ some t
      → row on_refresh_tokens t.id w' ≡ some t

  pub RefreshEnds : World db → String → Result LoginResponse → World db → Type 0
  RefreshEnds w given (ok response) w' = Exchanged w given response w'
  RefreshEnds w given (err e) w' = TokensKept w w'

  inserted-TokensKept :
      (w : World db) (mk : ℕ → RefreshToken)
      → ((n : ℕ) → (mk n).id ≡ n)
      → TokensKept w (inserted on_refresh_tokens mk w).1
  unfolding TokensKept
  inserted-TokensKept w mk k t h =
      elim (Bool-cases ((inserted on_refresh_tokens mk w).0.id == t.id)) [
        | inl e ↦
            let same : (inserted on_refresh_tokens mk w).0.id ≡ t.id = ground arith in
            absurd (cc (h, rw same at (row-inserted_new on_refresh_tokens mk w k)))
        | inr e ↦ rw (row-inserted on_refresh_tokens mk t.id w k, e) h
      ]

  -- A new row's key is not that of a row that was there.
  apart_new :
      (w : World db) (mk : ℕ → RefreshToken) (t : RefreshToken)
      → ((n : ℕ) → (mk n).id ≡ n)
      → row on_refresh_tokens t.id w ≡ some t
      → (t.id == (inserted on_refresh_tokens mk w).0.id) ≡ false
  apart_new w mk t k h = elim (Bool-cases (t.id == (inserted on_refresh_tokens mk w).0.id)) [
    | inl e ↦
        let same : (inserted on_refresh_tokens mk w).0.id ≡ t.id = ground arith in
        absurd (cc (h, rw same at (row-inserted_new on_refresh_tokens mk w k)))
    | inr e ↦ e
  ]

  row-new :
      (w : World db) (mk : ℕ → RefreshToken)
      → ((n : ℕ) → (mk n).id ≡ n)
      → row on_refresh_tokens
          (inserted on_refresh_tokens mk w).0.id
          (inserted on_refresh_tokens mk w).1
        ≡ some (inserted on_refresh_tokens mk w).0
  row-new w mk k =
      rw
        (
          row-inserted on_refresh_tokens mk (inserted on_refresh_tokens mk w).0.id w k,
          ==_refl (inserted on_refresh_tokens mk w).0.id,
        )
        refl

  -- a token for the user that is stored and valid
  pub record IsTokenOf (user : User) (token : String) (w : World db) : Type 0 where
    pub stored : RefreshToken
    pub is_stored : row on_refresh_tokens stored.id w ≡ some stored
    pub digest : stored.token_hash ≡ secrets.hash_token token
    pub of_user : stored.user_id ≡ user.id
    pub unrevoked : stored.revoked_at ≡ none
    pub unexpired : env.now < stored.expires_at

  -- What `issue` answers is stored, and the users are as they were.
  pub issued-IsTokenOf :
      (user : User) (w w' : World db) (issued : IssuedRefreshToken)
      → IsIssued env secrets user w issued w'
      → IsTokenOf user issued.token w' × (w'.users ≡ w.users)
  unfolding inserted new_token
  issued-IsTokenOf user w w' issued i =
      let mk = new_token env secrets user issued.token i.days in
      rw i.stored (
        record {
          stored = (inserted on_refresh_tokens mk w).0;
          is_stored = row-new w mk (λ n. refl);
          digest = refl;
          of_user = refl;
          unrevoked = refl;
          unexpired = omega (arith, i.at_least_one);
        },
        refl,
      )

  -- the state after the new row and the change of the old one
  exchanged :
      (w : World db) (given token : String) (old : RefreshToken) (user : User)
      (issued : IssuedRefreshToken)
      → IsValid env secrets w given old
      → row on_refresh_tokens old.id w ≡ some old
      → row on_users old.user_id w ≡ some user
      → (days : ℕ) → 1 ≤ days
      → Exchanged w given
          (record { token = token; refresh_token = issued.token })
          (updated on_refresh_tokens old.id
            (revoked env secrets)
            (inserted on_refresh_tokens (new_token env secrets user issued.token days) w).1)
  unfolding inserted new_token revoked TokensKept
  exchanged w given token old user issued valid keyed owner days positive =
      let mk = new_token env secrets user issued.token days in
      let new = (inserted on_refresh_tokens mk w).0 in
      let w1 = (inserted on_refresh_tokens mk w).1 in
      record {
        old = old;
        was_valid = valid;
        now_revoked =
            row-updated on_refresh_tokens old.id old.id (revoked env secrets) w1 (λ r. refl)
            ∙ rw (==_refl old.id, inserted-TokensKept w mk (λ n. refl) old keyed) refl;
        user = user;
        owner = owner;
        new = new;
        was_new = row-inserted_new on_refresh_tokens mk w (λ n. refl);
        new_stored =
            row-updated on_refresh_tokens old.id new.id (revoked env secrets) w1 (λ r. refl)
            ∙ rw (apart_new w mk old (λ n. refl) keyed) (row-new w mk (λ n. refl));
        new_digest = refl;
        same_user = key-row on_users old.user_id w owner;
        new_unrevoked = refl;
        new_unexpired = omega arith;
      }

  RevokeEnds : RefreshToken → World db → Result RefreshToken → World db → Type 0
  RevokeEnds old w (ok t) w' = w' ≡ updated on_refresh_tokens old.id (revoked env secrets) w
  RevokeEnds old w (err e) w' = w' ≡ w

  -- the last step of `refresh`
  revoked_after :
      (w : World db) (given token : String) (old : RefreshToken) (user : User)
      (issued : IssuedRefreshToken)
      → IsValid env secrets w given old
      → row on_refresh_tokens old.id w ≡ some old
      → row on_users old.user_id w ≡ some user
      → (days : ℕ) → 1 ≤ days
      → Runs
          (revoke_row env secrets old >>= λ stored.
            pure (record { token = token; refresh_token = issued.token }))
          (inserted on_refresh_tokens (new_token env secrets user issued.token days) w).1
          (RefreshEnds w given)
  unfolding revoke_row RevokeEnds RefreshEnds TokensKept revoked
  revoked_after w given token old user issued valid keyed owner days positive =
      let mk = new_token env secrets user issued.token days in
      let w1 = (inserted on_refresh_tokens mk w).1 in
      let kept = inserted-TokensKept w mk (new_token-id env secrets user issued.token days) in
      Runs-bind (RevokeEnds old w1) _ _
        (Runs-as_model (
          Runs-update on_refresh_tokens old.id (revoked env secrets) old (λ x. refl)
            (kept old keyed) refl refl))
        (λ stored w2 e.
          Runs-pure _
            (rw e (exchanged w given token old user issued valid keyed owner days positive)))
        (λ e w2 same. rw same kept)

  -- If the primary key finds each stored token, `refresh` answers only for a valid token whose user
  -- is stored: the token is revoked then, and a new one, valid and of the same user, is stored. If
  -- it fails, at whichever call, every stored token is as it was, so the given one stays usable.
  pub refresh_lem :
      (w : World db) (given : String)
      → TokensKeyed w
      → Runs (refresh env secrets given) w (RefreshEnds w given)
  unfolding refresh Valid RefreshEnds TokensKept revoke_row IssueEnds
  refresh_lem w given keys =
      Runs-reads _ (find_valid_by_token_lem env secrets w given)
        (λ l valid.
          Runs-check (refresh_lookup l) _
            (λ old is_found.
              let old_valid : IsValid env secrets w given old = rw (found_of l is_found) at valid in
              Runs-bind-load _ _
                (Runs-check (ok_or (row on_users old.user_id w) _) _
                  (λ user owned.
                    Runs-check (jwt_for_user env secrets user) _
                      (λ token signed.
                        Runs-bind (IssueEnds env secrets Unit user w) _ _
                          (issue_lem env secrets user w)
                          (λ issued w' i. rw i.stored (
                            revoked_after w given token old user issued old_valid
                              (keys.at old old_valid.listed) (ok_or-eq-ok _ _ owned) i.days
                              i.at_least_one))
                          (λ e w' same. rw same.0 (λ t h. h)))
                      (λ e h t k. k))
                  (λ e h t k. k))
                (λ _ t k. k))
            (λ e h t k. k))
        (λ e h. absurd h)

-- ===== src/Auth/Valid.antt =====
-- What `issue` has stored, and which tokens `find_valid_by_token` accepts.
use mathlib.Core.List.{Memᴰ}
use rust_template.Base.{
  ℕ, ◌≤◌, ◌<◌, String, ◌≡◌, refl, inl, inr, false, ◌||◌, Option, none, some, str_eq, eq_iff, leb,
  is_some, arith, Bool-cases,
}
use rust_template.Base.Int.{ℤ, pos}
use rust_template.Env.{Env}
use rust_template.Api.{Result, ok, err, database_error}
use rust_template.Db.Interface.{Database}
use rust_template.Db.Handler.{Ends, RunsIf, Runs-pure, Runs-bind, Runs-weaken}
use rust_template.Db.Rules.{Reads, ReadsIf, Runs-reads}
use rust_template.Db.Rows.{find_one, all_rows, inserted, find_one-some, Runs-insert_if}
use rust_template.Entities.Access.{User}
use rust_template.Entities.Sessions.{RefreshToken}
use rust_template.World.{World, on_refresh_tokens}
use rust_template.Rbac.Roles.{model_error, as_model_error}
use rust_template.Settings.{number_i64, clamp}
use rust_template.Settings.Bounds.{clamp_bounds, number_i64-Reads}
use rust_template.Auth.Secrets.{Secrets}
use rust_template.Auth.Lookup.{
  Lookup, found, missing, failed, of_option, as_model, Runs-as_model, Runs-look,
}
use rust_template.Auth.Tokens.{
  IssuedRefreshToken, new_token, is_over, usable, issue, find_valid_by_token,
}

unrevoked_of : (o : Option ℕ) → is_some o ≡ false → o ≡ none
unrevoked_of none h = refl
unrevoked_of (some n) h = cc

module _ {db : Database} (env : Env) (secrets : Secrets) where
  -- a setting that a `ModelResult` reads
  pub setting-Reads :
      {F : Type 0} (w : World db) (key : String) (default_value : ℤ)
      → ReadsIf F
          (as_model (number_i64 key default_value))
          w
          (λ _. Unit)
          (λ e. F × (e ≡ model_error))
  setting-Reads {F} w key default_value =
      Runs-as_model
        (Runs-weaken (number_i64-Reads w key default_value) (λ r w' h. (h.0, reported r h.1)))
    where
      reported :
          (r : Result ℤ)
          → Ends (λ _. Unit {0}) (λ e. F × (e ≡ database_error)) r
          → Ends (λ _. Unit {0}) (λ e. F × (e ≡ model_error)) (as_model_error r)
      reported (ok z) h = tt
      reported (err e) h = (h.0, refl)

  -- what `issue` has done: nothing, or one new row with the digest of a token that is not expired
  pub record IsIssued (user : User) (w : World db) (issued : IssuedRefreshToken) (w' : World db)
      : Type 0 where
    pub days : ℕ
    pub at_least_one : 1 ≤ days
    pub stored :
        w' ≡ (inserted on_refresh_tokens (new_token env secrets user issued.token days) w).1
    pub model :
        issued.model
        ≡ (inserted on_refresh_tokens (new_token env secrets user issued.token days) w).0

  unfoldable pub IssueEnds :
      Type 0 → User → World db → Result IssuedRefreshToken → World db → Type 0
  IssueEnds F user w (ok issued) w' = IsIssued user w issued w'
  IssueEnds F user w (err e) w' = (w' ≡ w) × F

  pub issue_lem :
      {F : Type 0} (user : User) (w : World db)
      → RunsIf F (issue env secrets user) w (IssueEnds F user w)
  unfolding issue IssueEnds
  issue_lem {F} user w =
      Runs-reads _ (setting-Reads w "auth.refresh_token_length" (pos 64))
        (λ length _.
          Runs-reads _ (setting-Reads w "auth.refresh_token_days" (pos 30))
            (λ days _.
              let token = secrets.random_string (clamp 32 256 length) in
              let mk = new_token env secrets user token (clamp 1 365 days) in
              Runs-bind (λ r w'. Stored mk r w') _ _
                (Runs-as_model (Runs-insert_if on_refresh_tokens mk (refl, refl) (λ k. (refl, k))))
                (λ model w' s. Runs-pure _ (record {
                  days = clamp 1 365 days;
                  at_least_one = (clamp_bounds 1 365 days (omega arith)).0;
                  stored = s.0;
                  model = s.1;
                }))
                (λ e w' s. s))
            (λ e h. (refl, h.0)))
        (λ e h. (refl, h.0))
    where
      Stored : (ℕ → RefreshToken) → Result RefreshToken → World db → Type 0
      Stored mk (ok model) w' =
          (w' ≡ (inserted on_refresh_tokens mk w).1) × (model ≡ (inserted on_refresh_tokens mk w).0)
      Stored mk (err e) w' = (w' ≡ w) × F

  -- a stored token with the digest of the given text, neither revoked nor expired
  pub record IsValid (w : World db) (given : String) (t : RefreshToken) : Type 0 where
    pub listed : Memᴰ t (all_rows on_refresh_tokens w)
    pub digest : t.token_hash ≡ secrets.hash_token given
    pub unrevoked : t.revoked_at ≡ none
    pub unexpired : env.now < t.expires_at

  unfoldable pub Valid : World db → String → Lookup RefreshToken → Type 0
  Valid w given (found t) = IsValid w given t
  Valid w given missing = Unit
  Valid w given failed = Unit

  Looked : World db → String → Lookup RefreshToken → Type 0
  Looked w given (found t) =
      Memᴰ t (all_rows on_refresh_tokens w) × (t.token_hash ≡ secrets.hash_token given)
  Looked w given missing = Unit
  Looked w given failed = Unit

  Looked-option :
      (w : World db) (given : String) (o : Option RefreshToken)
      → find_one on_refresh_tokens (λ t. str_eq t.token_hash (secrets.hash_token given)) w ≡ o
      → Looked w given (of_option o)
  unfolding Looked
  Looked-option w given none e = tt
  Looked-option w given (some t) e =
      let (m, c) = find_one-some on_refresh_tokens _ w e in (m, (eq_iff t.token_hash _).0 c)

  usable-Valid :
      (w : World db) (given : String) (l : Lookup RefreshToken)
      → Looked w given l
      → Valid w given (usable env secrets l)
  unfolding Valid Looked is_over
  usable-Valid w given missing h = tt
  usable-Valid w given failed h = tt
  usable-Valid w given (found t) h =
      elim (Bool-cases (is_some t.revoked_at || leb t.expires_at env.now)) [
        | inl e ↦ rw e tt
        | inr e ↦ rw e (record {
          listed = h.0;
          digest = h.1;
          unrevoked = unrevoked_of t.revoked_at (ground arith);
          unexpired = ground arith;
        })
      ]

  pub find_valid_by_token_lem :
      (w : World db) (given : String)
      → Reads (find_valid_by_token env secrets given) w (Valid w given) (λ _. ⊥)
  unfolding find_valid_by_token Valid Looked
  find_valid_by_token_lem w given =
      Runs-reads {P = Looked w given} {E = λ _. ⊥} _
        (Runs-look _ (refl, Looked-option w given _ refl) (λ _. (refl, tt)))
        (λ l h. Runs-pure _ (refl, usable-Valid w given l h)) (λ e h. absurd h)

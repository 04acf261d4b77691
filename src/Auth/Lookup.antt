-- ===== src/Auth/Lookup.antt =====
-- A `ModelResult` whose error the code looks at: an entity, that there is none, or another error.
use rust_template.Base.{Option, none, some}
use rust_template.Api.{Result, ok, err}
use rust_template.Db.Handler.{Handler, RunsIf, Runs-query_if, query}
use rust_template.Rbac.Roles.{entity_not_found, model_error, as_model_error}

pub data Lookup (A : Type 0) : Type 0 where
  found : A → Lookup A
  missing : Lookup A
  failed : Lookup A

-- `From<ModelError> for ApiError`
abbrev pub into_api : {A : Type 0} → Lookup A → Result A
into_api (found a) = ok a
into_api missing = err entity_not_found
into_api failed = err model_error

abbrev pub of_option : {A : Type 0} → Option A → Lookup A
of_option (some a) = found a
of_option none = missing

abbrev looked : {A : Type 0} → Result (Option A) → Lookup A
looked (ok o) = of_option o
looked (err e) = failed

module _ {W A : Type 0} where
  -- `find().one(db).await?.ok_or_else(|| ModelError::EntityNotFound)`
  unfoldable pub look : (W → Option A) → Handler W (Lookup A)
  unfolding query
  look f c = let (r, c') = query f c in (ok (looked r), c')

  -- a `DbErr` that becomes a `ModelError`
  unfoldable pub as_model : Handler W A → Handler W A
  as_model m c = let (r, c') = m c in (as_model_error r, c')

module _ {F W A : Type 0} {w : W} where
  pub Runs-as_model :
      {Q : Result A → W → Type 0} {m : Handler W A}
      → RunsIf F m w (λ r. Q (as_model_error r))
      → RunsIf F (as_model m) w Q
  unfolding as_model
  Runs-as_model h = record { ends = h.ends; left = h.left }

  pub Runs-look :
      {Q : Result (Lookup A) → W → Type 0} (f : W → Option A)
      → Q (ok (of_option (f w))) w
      → (F → Q (ok failed) w)
      → RunsIf F (look f) w Q
  unfolding look
  Runs-look {Q} f good bad =
      let q : RunsIf F (query f) w (λ r w'. Q (ok (looked r)) w') = Runs-query_if f good bad in
      record { ends = q.ends; left = q.left }

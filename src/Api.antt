-- ===== src/Api.antt =====
-- src/errors.rs: the error that every API handler returns, and the `Result` that carries it.
use rust_template.Base.{ℕ, String, ◌≡◌, refl, Bool, Option, none, some, if◌then◌else◌}

-- `struct ApiError`: the HTTP status, the code and the message.
pub record ApiError : Type 0 where
  pub status : ℕ
  pub code : String
  pub message : String

unfoldable pub unauthorized : String → ApiError
unauthorized m = record { status = 401; code = "UNAUTHORIZED"; message = m }

unfoldable pub bad_request : String → ApiError
bad_request m = record { status = 400; code = "BAD_REQUEST"; message = m }

unfoldable pub forbidden : String → ApiError
forbidden m = record { status = 403; code = "FORBIDDEN"; message = m }

unfoldable pub not_found : String → ApiError
not_found m = record { status = 404; code = "NOT_FOUND"; message = m }

unfoldable pub internal : String → ApiError
internal m = record { status = 500; code = "INTERNAL_ERROR"; message = m }

-- `with_code`
pub with_code : ApiError → String → ApiError
with_code e c = record e { code = c }

-- `From<DbErr>`
unfoldable pub database_error : ApiError
unfolding internal
database_error = internal "database operation failed"

-- `ApiResult`
pub data Result (A : Type 0) : Type 0 where
  ok : A → Result A
  err : ApiError → Result A

module _ {A : Type 0} where
  -- `Option::ok_or_else`
  abbrev pub ok_or : Option A → ApiError → Result A
  ok_or none missing = err missing
  ok_or (some value) missing = ok value

  pub ok_or-eq-ok :
      (o : Option A) (missing : ApiError) {a : A} → ok_or o missing ≡ ok a → o ≡ some a
  ok_or-eq-ok none missing h = cc
  ok_or-eq-ok (some value) missing h = cc

  pub ok_or-eq-err :
      (o : Option A) (missing : ApiError) {d : ApiError}
      → ok_or o missing ≡ err d
      → (o ≡ none) × (d ≡ missing)
  ok_or-eq-err none missing h = (refl, cc)
  ok_or-eq-err (some value) missing h = cc

-- `if !test { return Err(e) }`
abbrev pub ensure : Bool → ApiError → Result (Unit {0})
ensure test e = if test then ok tt else err e

-- the operator `?`
module _ {A B : Type 0} where
  infixl 5 ◌>>=◌
  abbrev pub ◌>>=◌ : Result A → (A → Result B) → Result B
  ◌>>=◌ (err failure) next = err failure
  ◌>>=◌ (ok value) next = next value

  -- a chain succeeds only if its first step does
  pub >>=-eq-ok :
      (first : Result A) (next : A → Result B) {b : B}
      → first >>= next ≡ ok b
      → (value : A) × (first ≡ ok value) × (next value ≡ ok b)
  >>=-eq-ok (err failure) next h = cc
  >>=-eq-ok (ok value) next h = (value, refl, h)

module _ {B : Type 0} where
  infixl 5 ◌>>◌
  abbrev pub ◌>>◌ : Result (Unit {0}) → Result B → Result B
  ◌>>◌ check rest = check >>= λ done. rest

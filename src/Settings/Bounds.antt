-- ===== src/Settings/Bounds.antt =====
-- The numbers that are read from settings stay in their ranges.
use rust_template.Base.{ℕ, ◌-◌, ◌^◌, ◌≤◌, ◌≡◌, refl, arith, String}
use rust_template.Base.Int.{ℤ, pos, negsuc}
use rust_template.Api.{database_error}
use rust_template.Db.Interface.{Database}
use rust_template.Db.Handler.{Runs-pure}
use rust_template.Db.Rules.{Reads, ReadsIf, Runs-reads, Runs-bind-query_if}
use rust_template.World.{World}
use rust_template.Settings.{
  clamp, bytes_per_mib, normalize_upload_max_size_mb, upload_limit_bytes_from_mb, number_i64,
  upload_max_size_mb, upload_limit_bytes,
}

pub clamp_bounds :
    (lo hi : ℕ) (value : ℤ) → lo ≤ hi → (lo ≤ clamp lo hi value) × (clamp lo hi value ≤ hi)
unfolding clamp
clamp_bounds lo hi (negsuc n) h = (omega arith, h)
clamp_bounds lo hi (pos n) h = ground arith

positive_limit : (value : ℤ) → 1 ≤ normalize_upload_max_size_mb value
unfolding normalize_upload_max_size_mb
positive_limit (negsuc n) = omega arith
positive_limit (pos n) = ground arith

limit_bounds :
    (max_mb : ℕ)
    → 1 ≤ max_mb
    → (bytes_per_mib ≤ upload_limit_bytes_from_mb max_mb)
      × (upload_limit_bytes_from_mb max_mb ≤ 2 ^ 63 - 1)
unfolding upload_limit_bytes_from_mb
limit_bounds max_mb h = ground arith

module _ {db : Database} (w : World db) where
  -- `number_i64` only reads, and fails only as its query does.
  pub number_i64-Reads :
      {F : Type 0} (key : String) (default_value : ℤ)
      → ReadsIf F (number_i64 key default_value) w (λ _. Unit) (λ e. F × (e ≡ database_error))
  unfolding number_i64
  number_i64-Reads key default_value =
      Runs-bind-query_if _ _ (Runs-pure _ (refl, tt)) (λ k. (refl, (k, refl)))

  -- Whatever is stored, the upload limit is at least one MiB and fits into an `i64`.
  pub upload_limit_bytes_lem :
      Reads upload_limit_bytes w
        (λ limit. (bytes_per_mib ≤ limit) × (limit ≤ 2 ^ 63 - 1))
        (λ e. e ≡ database_error)
  unfolding upload_limit_bytes upload_max_size_mb
  upload_limit_bytes_lem =
      Runs-reads {P = λ max_mb. 1 ≤ max_mb} {E = λ e. e ≡ database_error} _
        (Runs-reads _ (number_i64-Reads "upload.max_size_mb" (pos 20))
          (λ value _. Runs-pure _ (refl, positive_limit value)) (λ e h. (refl, h.1)))
        (λ max_mb h. Runs-pure _ (refl, limit_bounds max_mb h)) (λ e h. (refl, h))

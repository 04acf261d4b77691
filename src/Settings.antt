-- ===== src/Settings.antt =====
-- src/models/system_settings.rs: typed access to the settings, with a default for a value that is
-- missing or does not parse.
pub mod Bounds
use Prim.Native.Char.{code}
use Prim.Native.String
use rust_template.Base.{
  ℕ, ◌-◌, ◌*◌, ◌^◌, String, ◌≡◌, refl, Bool, true, false, not, ◌&&◌, Option, none, some, str_eq,
  ltb, leb, ◌==◌, if◌then◌else◌, unwrap_or,
}
use mathlib.Core.Option
use rust_template.Base.Int.{ℤ, pos, negsuc}
use rust_template.Base.Text.{trim, is_blank, parse_digits, digits_value}
use rust_template.Db.Interface.{Database}
use rust_template.Db.Handler.{Handler, query, pure, ◌>>=◌}
use rust_template.Db.Rows.{find_one}
use rust_template.Entities.Settings.{SystemSetting}
use rust_template.World.{World, on_system_settings}

-- `-n`, the number `n` at most `2 ^ 63`
abbrev pub minus : ℕ → ℤ
minus n = if n == 0 then pos 0 else negsuc (n - 1)

-- `str::parse::<i64>()`: digits behind an optional sign
unfoldable pub parse_signed : String → Option ℤ
unfolding parse_digits
parse_signed String.[] = none
parse_signed (String.◌∷◌ c s) =
    if code c == b'-'
    then Option.map minus (parse_digits (2 ^ 63) s)
    else if code c == b'+'
    then Option.map pos (parse_digits (2 ^ 63 - 1) s)
    else Option.map pos (parse_digits (2 ^ 63 - 1) (String.◌∷◌ c s))

abbrev pub and_then : Option SystemSetting → (String → Option ℤ) → Option ℤ
and_then none f = none
and_then (some setting) f = f setting.value

-- `Option::filter`
abbrev pub filter_option : (String → Bool) → Option String → Option String
filter_option p none = none
filter_option p (some s) = if p s then some s else none

-- `value.clamp(lo, hi)` of an `i64`, where `lo` is positive
unfoldable pub clamp : ℕ → ℕ → ℤ → ℕ
clamp lo hi (negsuc n) = lo
clamp lo hi (pos n) = if ltb n lo then lo else if ltb hi n then hi else n

abbrev pub default_upload_max_size_mb : ℕ
default_upload_max_size_mb = 20

abbrev pub bytes_per_mib : ℕ
bytes_per_mib = 1024 * 1024

unfoldable pub normalize_upload_max_size_mb : ℤ → ℕ
normalize_upload_max_size_mb (negsuc n) = default_upload_max_size_mb
normalize_upload_max_size_mb (pos n) = if ltb 0 n then n else default_upload_max_size_mb

-- `saturating_mul` of an `i64`, of numbers that are not negative
unfoldable pub upload_limit_bytes_from_mb : ℕ → ℕ
upload_limit_bytes_from_mb max_mb =
    if ltb (2 ^ 63 - 1) (max_mb * bytes_per_mib) then 2 ^ 63 - 1 else max_mb * bytes_per_mib

module _ {db : Database} where
  setting_of : String → World db → Option SystemSetting
  setting_of key = find_one on_system_settings (λ s. str_eq s.key key)

  unfoldable pub string_value : String → String → Handler (World db) String
  unfolding setting_of trim
  string_value key default_value = do
    setting ← query (setting_of key)
    let value = Option.map (λ (s : SystemSetting). s.value) setting
    pure (unwrap_or (filter_option (λ v. not (is_blank (trim v))) value) default_value)

  unfoldable pub number_i64 : String → ℤ → Handler (World db) ℤ
  unfolding setting_of parse_signed trim
  number_i64 key default_value = do
    setting ← query (setting_of key)
    pure (unwrap_or (and_then setting (λ value. parse_signed (trim value))) default_value)

  unfoldable pub upload_max_size_mb : Handler (World db) ℕ
  unfolding number_i64 normalize_upload_max_size_mb
  upload_max_size_mb = do
    configured ← number_i64 "upload.max_size_mb" (pos default_upload_max_size_mb)
    pure (normalize_upload_max_size_mb configured)

  unfoldable pub upload_limit_bytes : Handler (World db) ℕ
  unfolding upload_max_size_mb upload_limit_bytes_from_mb
  upload_limit_bytes = do max_mb ← upload_max_size_mb; pure (upload_limit_bytes_from_mb max_mb)

signed_numbers : parse_signed "-42" ≡ some (negsuc 41)
unfolding parse_signed parse_digits digits_value
signed_numbers = refl

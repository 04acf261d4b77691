-- ===== src/Payments/Amount.antt =====
-- `parse_amount` and `normalize_amount` of src/controllers/admin/payments.rs: decimal texts with at
-- most two places, as cents in an `i64`.
pub mod RoundTrip
use Prim.Native.Char.{Char, code}
use Prim.Native.String
use Prim.Native.String.{◌++◌ as str_append}
use rust_template.Base.{
  ℕ, suc, ◌+◌, ◌-◌, ◌*◌, ◌^◌, String, ◌≡◌, refl, Bool, not, ◌&&◌, ◌||◌, Option, none, some, ltb,
  leb, ◌==◌, unwrap_or, if◌then◌else◌,
}
use rust_template.Base.Text.{
  trim, is_blank, all_chars, chars_count, is_ascii_digit, split_once, starts_with_char,
  digits_value,
}
use rust_template.Api.{ApiError, Result, ok, err, ok_or, ensure, bad_request, ◌>>=◌, ◌>>◌}

abbrev pub i64_max : ℕ
i64_max = 2 ^ 63 - 1

abbrev pub not_decimal : ApiError
not_decimal = bad_request "amount must be a positive decimal"

abbrev pub too_large : ApiError
too_large = bad_request "amount is too large"

-- `str::parse::<i64>()` of a text without a sign
unfoldable pub parse_i64 : String → Option ℕ
parse_i64 s =
    if not (is_blank s) && all_chars is_ascii_digit s && leb (digits_value 0 s) i64_max
    then some (digits_value 0 s)
    else none

unfoldable pub checked_mul : ℕ → ℕ → Option ℕ
checked_mul a b = if leb (a * b) i64_max then some (a * b) else none

unfoldable pub checked_add : ℕ → ℕ → Option ℕ
checked_add a b = if leb (a + b) i64_max then some (a + b) else none

-- `{:0<2}`: filled with zeros on the right, up to two places
unfoldable pub pad2 : String → String
pad2 String.[] = "00"
pad2 (String.◌∷◌ c String.[]) = String.◌∷◌ c "0"
pad2 (String.◌∷◌ c (String.◌∷◌ d s)) = String.◌∷◌ c (String.◌∷◌ d s)

-- the first two characters
unfoldable pub first2 : String → String
first2 String.[] = ""
first2 (String.◌∷◌ c String.[]) = String.◌∷◌ c ""
first2 (String.◌∷◌ c (String.◌∷◌ d s)) = String.◌∷◌ c (String.◌∷◌ d "")

-- the whole and the fractional part of the trimmed text
unfoldable pub parts : String → String × String
parts trimmed = unwrap_or (split_once b'.' trimmed) (trimmed, "")

-- what `parse_amount` does with the two parts
unfoldable pub cents_of : String → String → Result ℕ
cents_of whole fraction = do
  ensure
      (not (
        is_blank whole
        || not (all_chars is_ascii_digit whole)
        || not (all_chars is_ascii_digit fraction)
        || ltb 2 (chars_count fraction)))
      not_decimal
  units ← ok_or (parse_i64 whole) too_large
  hundreds ← ok_or (checked_mul units 100) too_large
  rest ← ok_or (parse_i64 (first2 (pad2 fraction))) not_decimal
  cents ← ok_or (checked_add hundreds rest) too_large
  ensure (not (cents == 0)) (bad_request "amount must be greater than zero")
  ok cents

unfoldable pub parse_amount : String → Result ℕ
parse_amount value =
    let trimmed = trim value in
    let (whole, fraction) = parts trimmed in
    if is_blank trimmed || starts_with_char b'-' trimmed
    then err not_decimal
    else cents_of whole fraction

-- `format!` of the two parts
unfoldable pub amount_text : String → String → String
amount_text whole fraction = str_append whole (str_append "." (pad2 fraction))

unfoldable pub normalize_amount : String → Result String
normalize_amount value = do
  _ ← parse_amount value
  let trimmed = trim value
  ok (elim (split_once b'.' trimmed) [
    | none ↦ str_append trimmed ".00"
    | some (whole, fraction) ↦ amount_text whole fraction
  ])

amounts :
    (parse_amount " 12.5 " ≡ ok 1250)
    × (normalize_amount " 12.5 " ≡ ok "12.50")
    × (normalize_amount "7" ≡ ok "7.00")
    × (parse_amount "0.00" ≡ err (bad_request "amount must be greater than zero"))
    × (parse_amount "-1" ≡ err not_decimal)
    × (parse_amount "92233720368547758.08" ≡ err too_large)
unfolding parse_amount normalize_amount trim parts split_once cents_of parse_i64 digits_value
    checked_mul checked_add pad2 first2 amount_text
amounts = (refl, refl, refl, refl, refl, refl)

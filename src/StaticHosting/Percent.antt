-- ===== src/StaticHosting/Percent.antt =====
-- `percent_decode_path` and `percent_encode_segment` of src/services/static_hosting.rs. Whether
-- bytes are UTF-8 is the standard library's: an argument.
use rust_template.Base.{
  ℕ, ◌+◌, ◌-◌, ◌*◌, ◌/◌, ◌%◌, Bool, ◌&&◌, ◌||◌, List, [], ◌∷◌, ltb, leb, ◌==◌, if◌then◌else◌,
}
use rust_template.Api.{ApiError, Result, ok, err, bad_request, ◌>>=◌}

abbrev pub Bytes : Type 0
Bytes = List ℕ

abbrev pub bad_encoding : ApiError
bad_encoding = bad_request "URL 路径编码无效"

unfoldable pub decode_hex : ℕ → Result ℕ
unfolding bad_request
decode_hex value =
    if leb b'0' value && leb value b'9'
    then ok (value - b'0')
    else if leb b'a' value && leb value b'f'
    then ok (value - b'a' + 10)
    else if leb b'A' value && leb value b'F'
    then ok (value - b'A' + 10)
    else err bad_encoding

abbrev pub push : ℕ → Result Bytes → Result Bytes
push b (ok rest) = ok (b ∷ rest)
push b (err e) = err e

-- `(high << 4) | low`, of two hexadecimal digits
unfoldable pub push_pair : ℕ → ℕ → Result Bytes → Result Bytes
unfolding decode_hex
push_pair first second rest = do
  high ← decode_hex first
  low ← decode_hex second
  push (high * 16 + low) rest

-- the loop of `percent_decode_path`
unfoldable pub percent_decode : Bytes → Result Bytes
unfolding push_pair bad_request
percent_decode [] = ok []
percent_decode (b ∷ []) = if b == b'%' then err bad_encoding else ok (b ∷ [])
percent_decode (b ∷ c ∷ []) =
    let rest = percent_decode (c ∷ []) in if b == b'%' then err bad_encoding else push b rest
percent_decode (b ∷ c ∷ d ∷ path) =
    let behind = percent_decode path in
    let rest = percent_decode (c ∷ d ∷ path) in
    if b == b'%' then push_pair c d behind else push b rest

-- `String::from_utf8(decoded)`
abbrev as_utf8 : (Bytes → Bool) → Bytes → Result Bytes
as_utf8 is_utf8 decoded = if is_utf8 decoded then ok decoded else err (bad_request "URL 路径不是 UTF-8")

unfoldable pub percent_decode_path : (Bytes → Bool) → Bytes → Result Bytes
unfolding percent_decode bad_request
percent_decode_path is_utf8 path = do decoded ← percent_decode path; as_utf8 is_utf8 decoded

-- `is_ascii_alphanumeric() || matches!(byte, b'-' | b'_' | b'.' | b'~')`
unfoldable pub is_unreserved : ℕ → Bool
is_unreserved b =
    (leb b'0' b && leb b b'9')
    || (leb b'a' b && leb b b'z')
    || (leb b'A' b && leb b b'Z')
    || b == b'-'
    || b == b'_'
    || b == b'.'
    || b == b'~'

-- a digit of `{byte:02X}`
unfoldable pub hex_digit : ℕ → ℕ
hex_digit d = if ltb d 10 then b'0' + d else b'A' + (d - 10)

unfoldable pub percent_encode_segment : Bytes → Bytes
unfolding is_unreserved hex_digit
percent_encode_segment [] = []
percent_encode_segment (b ∷ segment) =
    let rest = percent_encode_segment segment in
    if is_unreserved b then b ∷ rest else b'%' ∷ hex_digit (b / 16) ∷ hex_digit (b % 16) ∷ rest

-- ===== src/FileStream.antt =====
-- src/services/file_stream.rs and `stream_local_path` of src/services/storage.rs: the byte range
-- that a request asks for, the response around it, and the stream of the file's bytes.
pub mod Bounds
pub mod Asked
pub mod Requested
pub mod Stream
pub mod Delivery
pub mod Served
use rust_template.Base.{
  ℕ, suc, ◌+◌, ◌-◌, String, ◌≡◌, refl, Bool, true, false, Option, none, some, ltb, ◌==◌,
  if◌then◌else◌, unwrap_or,
}
use rust_template.Base.Text.{
  is_blank, split_once, contains_char, strip_prefix, parse_usize, digits_value, parse_digits,
}
use rust_template.Api.{Result, ok, err, ok_or, bad_request, ◌>>=◌}

-- the value of a header: a text, or bytes that `to_str` refuses
pub data HeaderValue : Type 0 where
  text : String → HeaderValue
  opaque : HeaderValue

abbrev pub to_str : HeaderValue → Option String
to_str (text s) = some s
to_str opaque = none

-- `Range<usize>`
pub record Range : Type 0 where
  pub start : ℕ
  pub end : ℕ

abbrev pub min : ℕ → ℕ → ℕ
min a b = if ltb a b then a else b

-- `bytes=-N`: the last bytes
unfoldable pub suffix_range : ℕ → String → Result (Option Range)
unfolding bad_request parse_usize
suffix_range total_size end = do
  suffix ← ok_or (parse_usize end) (bad_request "invalid Range header")
  if suffix == 0
      then err (bad_request "range is not satisfiable")
      else ok (some (record { start = total_size - suffix; end = total_size }))

-- the last byte that is asked for
unfoldable pub last_byte : ℕ → String → Result ℕ
unfolding bad_request parse_usize
last_byte total_size end = if is_blank end then ok (total_size - 1) else do
  last ← ok_or (parse_usize end) (bad_request "invalid Range header")
  ok (min last (total_size - 1))

-- `bytes=N-` and `bytes=N-M`
unfoldable pub bounded_range : ℕ → String → String → Result (Option Range)
unfolding bad_request parse_usize last_byte
bounded_range total_size first end = do
  start ← ok_or (parse_usize first) (bad_request "invalid Range header")
  if ltb start total_size
      then (do
        last ← last_byte total_size end
        if ltb last start
            then err (bad_request "range is not satisfiable")
            else ok (some (record { start = start; end = last + 1 })))
      else err (bad_request "range is not satisfiable")

-- the range behind `bytes=`
unfoldable pub byte_range : ℕ → String → Result (Option Range)
unfolding bad_request suffix_range bounded_range
byte_range total_size bytes =
    if contains_char b',' bytes
    then err (bad_request "multiple byte ranges are not supported")
    else (do
      ends ← ok_or (split_once b'-' bytes) (bad_request "invalid Range header")
      if total_size == 0
          then err (bad_request "range is not satisfiable")
          else if is_blank ends.0
          then suffix_range total_size ends.1
          else bounded_range total_size ends.0 ends.1)

-- `requested_range`, of the header `Range`
unfoldable pub requested_range : Option HeaderValue → ℕ → Result (Option Range)
unfolding bad_request byte_range
requested_range none total_size = ok none
requested_range (some header) total_size = do
  value ← ok_or (to_str header) (bad_request "invalid Range header")
  bytes ← ok_or (strip_prefix "bytes=" value) (bad_request "only byte ranges are supported")
  byte_range total_size bytes

ten_to_nineteen :
    requested_range (some (text "bytes=10-19")) 100 ≡ ok (some (record { start = 10; end = 20 }))
unfolding requested_range digits_value parse_digits parse_usize split_once contains_char
    strip_prefix
ten_to_nineteen = refl

last_eight :
    requested_range (some (text "bytes=-8")) 100 ≡ ok (some (record { start = 92; end = 100 }))
unfolding requested_range digits_value parse_digits parse_usize split_once contains_char
    strip_prefix
last_eight = refl

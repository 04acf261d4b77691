-- ===== src/FileStream/Stream.antt =====
-- `stream_local_path` of src/services/storage.rs, `streaming_response` of src/services/file_stream.rs
-- and how `raw_file_response` of src/controllers/admin/file_manager.rs joins them. What the file
-- system answers is an argument; a file's length fits into `usize`.
use rust_template.Base.{
  ℕ, zero, suc, ◌+◌, ◌-◌, ◌*◌, String, Bool, ◌||◌, Option, none, some, List, [], ◌∷◌, ltb, ◌==◌,
  length, is_empty, is_some, str_eq, if◌then◌else◌, unwrap_or,
}
use Prim.Native.String.{◌++◌ as str_append}
use rust_template.Api.{Result, ok, err, bad_request, internal, ◌>>=◌}
use rust_template.FileStream.{HeaderValue, Range, min, requested_range}

-- a file: its bytes, whether opening and seeking succeed, and what `read` puts into a buffer of a
-- given size at a given place, or that it fails
pub record LocalFile (Byte : Type 0) : Type 0 where
  pub content : List Byte
  pub opens : Bool
  pub seeks : Bool
  pub read : ℕ → ℕ → Option (List Byte)

-- `ObjectByteStream`, with what the stream yields: chunks, and `none` for an error, which ends it
pub record ObjectByteStream (Byte : Type 0) : Type 0 where
  pub total_size : ℕ
  pub range : Range
  pub stream : List (Option (List Byte))

abbrev pub Headers : Type 0
Headers = List (String × String)

-- `HeaderMap::insert`: the value replaces the one that is there
unfoldable pub insert_header : String → String → Headers → Headers
insert_header name value [] = (name, value) ∷ []
insert_header name value ((n, v) ∷ rest) =
    if str_eq n name then (n, value) ∷ rest else (n, v) ∷ insert_header name value rest

-- `HeaderMap::get`
unfoldable pub get_header : String → Headers → Option String
get_header name [] = none
get_header name ((n, v) ∷ rest) = if str_eq n name then some v else get_header name rest

pub record Response (Byte : Type 0) : Type 0 where
  pub status : ℕ
  pub headers : Headers
  pub body : List (Option (List Byte))

-- `usize::to_string`, and whether `HeaderValue::from_str` accepts a text
pub record Texts : Type 0 where
  pub decimal : ℕ → String
  pub accepts : String → Bool

abbrev pub buffer_size : ℕ
buffer_size = 64 * 1024

-- `HeaderValue::from_str(text)?`
unfoldable pub header_value : Texts → String → Result String
unfolding internal
header_value texts text =
    if texts.accepts text then ok text else err (internal "failed to build file response")

module _ {Byte : Type 0} where
  -- the closure of `try_unfold`, with the place in the file; each round reads at least one byte,
  -- so `remaining` rounds are enough
  unfoldable pub unfold_stream :
      (ℕ → ℕ → Option (List Byte)) → ℕ → ℕ → ℕ → List (Option (List Byte))
  unfold_stream read zero place remaining = []
  unfold_stream read (suc fuel) place remaining = elim (read place (min remaining buffer_size)) [
    | none ↦ if remaining == 0 then [] else none ∷ []
    | some chunk ↦
        let rest = unfold_stream read fuel (place + length chunk) (remaining - length chunk) in
        if remaining == 0 then [] else if is_empty chunk then [] else some chunk ∷ rest
  ]

  unfoldable pub stream_local_path :
      Option (LocalFile Byte) → Option Range → Result (ObjectByteStream Byte)
  unfolding bad_request internal unfold_stream
  stream_local_path none requested = err (bad_request "file content not found")
  stream_local_path (some file) requested =
      let total_size = length file.content in
      let range = unwrap_or requested (record { start = 0; end = total_size }) in
      let remaining = range.end - range.start in
      if ltb range.end range.start || ltb total_size range.end
      then err (bad_request "invalid file byte range")
      else if file.opens
      then if file.seeks
        then ok (record {
          total_size = total_size;
          range = range;
          stream = unfold_stream file.read remaining range.start remaining;
        })
        else err (internal "failed to seek file content")
      else err (bad_request "file content not found")

  module _ (texts : Texts) where
    -- `format!("bytes {}-{}/{}", ...)`
    unfoldable pub content_range : ObjectByteStream Byte → String
    content_range content = str_append "bytes " (
        str_append (texts.decimal content.range.start) (
          str_append "-" (
            str_append (texts.decimal (content.range.end - 1))
              (str_append "/" (texts.decimal content.total_size)))))

    unfoldable pub streaming_response :
        ObjectByteStream Byte → Headers → Bool → Result (Response Byte)
    unfolding header_value content_range insert_header
    streaming_response content given partial = do
      let content_length = content.range.end - content.range.start
      shown ← header_value texts (texts.decimal content_length)
      let headers =
          insert_header "content-length" shown (insert_header "accept-ranges" "bytes" given)
      if partial
          then (do
            value ← header_value texts (content_range content)
            ok (record {
              status = 206;
              headers = insert_header "content-range" value headers;
              body = content.stream;
            }))
          else ok (record { status = 200; headers = headers; body = content.stream })

    -- the range, the stream and the response in `raw_file_response`; `given` are the headers that
    -- it has set before
    unfoldable pub serve_file :
        Option HeaderValue → LocalFile Byte → Headers → Result (Response Byte)
    unfolding requested_range stream_local_path streaming_response
    serve_file header file given = do
      requested ← requested_range header (length file.content)
      content ← stream_local_path (some file) requested
      streaming_response content given (is_some requested)

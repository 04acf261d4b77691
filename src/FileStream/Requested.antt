-- ===== src/FileStream/Requested.antt =====
-- `requested_range` of src/services/file_stream.rs answers the range that the header asks for, and
-- refuses a header exactly if it asks for none.
use rust_template.Base.{
  ℕ, ◌<◌, ◌≡◌, refl, sym, ap, ◌∙◌, inl, inr, String, false, some, ◌==◌, arith, Bool-cases,
  Option-cases, if◌then◌else◌,
}
use rust_template.Base.Text.{is_blank, split_once, contains_char, strip_prefix}
use rust_template.Api.{bad_request}
use rust_template.Db.Handler.{Ends}
use rust_template.FileStream.{
  HeaderValue, Range, to_str, byte_range, suffix_range, bounded_range, requested_range,
}
use rust_template.FileStream.Asked.{
  Asked, AskedBy, Answers, Refuses, Ends-iff, suffix_range-Asked, bounded_range-Asked,
}

some_injective : {A : Type 0} {a b : A} → some a ≡ some b → a ≡ b
some_injective h = cc

-- the range behind `bytes=` asks for the range
record AskedIn (total_size : ℕ) (bytes : String) (r : Range) : Type 0 where
  single : contains_char b',' bytes ≡ false
  ends : String × String
  dash : split_once b'-' bytes ≡ some ends
  not_empty : 0 < total_size
  asked : Asked total_size ends.0 ends.1 r

module _ (total_size : ℕ) where
  by_dash :
      (ends : String × String)
      → Ends (Answers (Asked total_size ends.0 ends.1)) (Refuses (Asked total_size ends.0 ends.1)) (
          if is_blank ends.0
          then suffix_range total_size ends.1
          else bounded_range total_size ends.0 ends.1)
  by_dash (first, last) = elim (Bool-cases (is_blank first)) [
    | inl e ↦ rw e (suffix_range-Asked total_size first last e)
    | inr e ↦ rw e (bounded_range-Asked total_size first last e)
  ]

  byte_range-AskedIn :
      (bytes : String)
      → Ends
          (Answers (AskedIn total_size bytes))
          (Refuses (AskedIn total_size bytes))
          (byte_range total_size bytes)
  unfolding byte_range bad_request
  byte_range-AskedIn bytes = elim (Bool-cases (contains_char b',' bytes)) [
    | inl many ↦ rw many ((refl, refl), λ r q. cc (many, q.single))
    | inr single ↦ elim (Option-cases (split_once b'-' bytes)) [
      | inl missing ↦ rw (single, missing) ((refl, refl), λ r q. cc (missing, q.dash))
      | inr (ends, found) ↦ elim (Bool-cases (total_size == 0)) [
        | inl z ↦ rw (single, found, z) ((refl, refl), λ r q. ground (arith, z, q.not_empty))
        | inr z ↦
            rw (single, found, z)
              (Ends-iff {P = Asked total_size ends.0 ends.1} {Q = AskedIn total_size bytes} _
                (λ r q. record {
                  single = single;
                  ends = ends;
                  dash = found;
                  not_empty = ground (arith, z);
                  asked = q;
                })
                (λ r q.
                  let same : q.ends ≡ ends = some_injective (sym q.dash ∙ found) in
                  rw same at q.asked)
                (by_dash ends))
      ]
    ]
  ]

  -- `requested_range` answers a range that the header asks for, and refuses the header as a bad
  -- request only if it asks for no range.
  pub requested_range-AskedBy :
      (header : HeaderValue)
      → Ends
          (Answers (AskedBy header total_size))
          (Refuses (AskedBy header total_size))
          (requested_range (some header) total_size)
  unfolding requested_range bad_request
  requested_range-AskedBy header = elim (Option-cases (to_str header)) [
    | inl missing ↦ rw missing ((refl, refl), λ r q. cc (missing, q.is_text))
    | inr (value, is_text) ↦ elim (Option-cases (strip_prefix "bytes=" value)) [
      | inl missing ↦
          rw (is_text, missing)
            (
              (refl, refl),
              λ r q.
                  let same : q.value ≡ value = some_injective (sym q.is_text ∙ is_text) in
                  cc (missing, q.unit, same),
            )
      | inr (bytes, unit) ↦
          rw (is_text, unit)
            (Ends-iff {P = AskedIn total_size bytes} {Q = AskedBy header total_size} _
              (λ r q. record {
                value = value;
                is_text = is_text;
                bytes = bytes;
                unit = unit;
                single = q.single;
                ends = q.ends;
                dash = q.dash;
                not_empty = q.not_empty;
                asked = q.asked;
              })
              (λ r q.
                let same : q.value ≡ value = some_injective (sym q.is_text ∙ is_text) in
                let same_bytes : q.bytes ≡ bytes =
                  some_injective (sym q.unit ∙ ap (strip_prefix "bytes=") same ∙ unit) in
                record {
                  single = rw same_bytes at q.single;
                  ends = q.ends;
                  dash = rw same_bytes at q.dash;
                  not_empty = q.not_empty;
                  asked = q.asked;
                })
              (byte_range-AskedIn bytes))
    ]
  ]

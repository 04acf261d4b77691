-- ===== src/FileStream/Bounds.antt =====
-- The ranges that `requested_range` answers lie in the file and are not empty.
use rust_template.Base.{
  ℕ, ◌+◌, ◌≤◌, ◌<◌, ◌≡◌, refl, String, Option, none, some, ltb, ◌==◌, arith, Bool-cases,
  Option-cases, inl, inr, if◌then◌else◌,
}
use rust_template.Base.Text.{is_blank, split_once, contains_char, strip_prefix, parse_usize}
use rust_template.Api.{ApiError, Result, ok, err, bad_request, ◌>>=◌}
use rust_template.Db.Handler.{Ends}
use rust_template.FileStream.{
  HeaderValue, Range, to_str, byte_range, suffix_range, last_byte, bounded_range, requested_range,
}

-- not empty, and within a file of that size
pub record IsWithin (total_size : ℕ) (r : Range) : Type 0 where
  pub not_empty : r.start < r.end
  pub fits : r.end ≤ total_size

-- a range, which lies in the file
abbrev pub AnswersWithin : ℕ → Option Range → Type 0
AnswersWithin total_size none = ⊥
AnswersWithin total_size (some r) = IsWithin total_size r

abbrev pub IsBadRequest : ApiError → Type 0
IsBadRequest e = (e.status ≡ 400) × (e.code ≡ "BAD_REQUEST")

suffix_range-Ends :
    (total_size : ℕ) (end : String)
    → 0 < total_size
    → Ends (AnswersWithin total_size) IsBadRequest (suffix_range total_size end)
unfolding suffix_range bad_request
suffix_range-Ends total_size end pos = elim (Option-cases (parse_usize end)) [
  | inl missing ↦ rw missing (refl, refl)
  | inr (suffix, found) ↦ rw found (elim (Bool-cases (suffix == 0)) [
    | inl e ↦ rw e (refl, refl)
    | inr e ↦ rw e (record { not_empty = ground arith; fits = omega arith })
  ])
]

last_byte-Ends :
    (total_size : ℕ) (end : String)
    → 0 < total_size
    → Ends (λ last. last < total_size) IsBadRequest (last_byte total_size end)
unfolding last_byte bad_request
last_byte-Ends total_size end pos = elim (Bool-cases (is_blank end)) [
  | inl e ↦ rw e (omega arith)
  | inr e ↦ elim (Option-cases (parse_usize end)) [
    | inl missing ↦ rw (e, missing) (refl, refl)
    | inr (last, found) ↦ rw (e, found) (ground arith)
  ]
]

-- the last step of `bounded_range`
closed :
    (total_size start : ℕ) (last : Result ℕ)
    → Ends (λ l. l < total_size) IsBadRequest last
    → Ends (AnswersWithin total_size) IsBadRequest (
        last >>= λ l.
        if ltb l start
        then err (bad_request "range is not satisfiable")
        else ok (some (record { start = start; end = l + 1 })))
unfolding bad_request
closed total_size start (err e) p = p
closed total_size start (ok l) p = elim (Bool-cases (ltb l start)) [
  | inl e ↦ rw e (refl, refl)
  | inr e ↦ rw e (record { not_empty = ground arith; fits = omega arith })
]

bounded_range-Ends :
    (total_size : ℕ) (first end : String)
    → 0 < total_size
    → Ends (AnswersWithin total_size) IsBadRequest (bounded_range total_size first end)
unfolding bounded_range bad_request
bounded_range-Ends total_size first end pos = elim (Option-cases (parse_usize first)) [
  | inl missing ↦ rw missing (refl, refl)
  | inr (start, found) ↦ rw found (elim (Bool-cases (ltb start total_size)) [
    | inl e ↦
        rw e
          (closed total_size start (last_byte total_size end) (last_byte-Ends total_size end pos))
    | inr e ↦ rw e (refl, refl)
  ])
]

nonempty_file :
    (total_size : ℕ) (first end : String)
    → Ends (AnswersWithin total_size) IsBadRequest (
        if total_size == 0
        then err (bad_request "range is not satisfiable")
        else if is_blank first
        then suffix_range total_size end
        else bounded_range total_size first end)
unfolding bad_request
nonempty_file total_size first end = elim (Bool-cases (total_size == 0)) [
  | inl z ↦ rw z (refl, refl)
  | inr z ↦ elim (Bool-cases (is_blank first)) [
    | inl b ↦ rw (z, b) (suffix_range-Ends total_size end (ground arith))
    | inr b ↦ rw (z, b) (bounded_range-Ends total_size first end (ground arith))
  ]
]

single_range :
    (total_size : ℕ) (bytes : String)
    → Ends (AnswersWithin total_size) IsBadRequest (byte_range total_size bytes)
unfolding byte_range bad_request
single_range total_size bytes = elim (Bool-cases (contains_char b',' bytes)) [
  | inl e ↦ rw e (refl, refl)
  | inr e ↦ elim (Option-cases (split_once b'-' bytes)) [
    | inl missing ↦ rw (e, missing) (refl, refl)
    | inr (ends, found) ↦ rw (e, found) (nonempty_file total_size ends.0 ends.1)
  ]
]

-- A request with the header is answered with a range that is not empty and lies in the file, or
-- refused as a bad request.
pub requested_range_lem :
    (header : HeaderValue) (total_size : ℕ)
    → Ends (AnswersWithin total_size) IsBadRequest (requested_range (some header) total_size)
unfolding requested_range bad_request
requested_range_lem header total_size = elim (Option-cases (to_str header)) [
  | inl missing ↦ rw missing (refl, refl)
  | inr (value, found) ↦ elim (Option-cases (strip_prefix "bytes=" value)) [
    | inl missing ↦ rw (found, missing) (refl, refl)
    | inr (bytes, stripped) ↦ rw (found, stripped) (single_range total_size bytes)
  ]
]

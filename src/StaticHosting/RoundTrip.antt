-- ===== src/StaticHosting/RoundTrip.antt =====
-- Decoding what was percent-encoded gives the path again.
use rust_template.Base.{
  ℕ, ◌+◌, ◌-◌, ◌/◌, ◌%◌, ◌<◌, ◌≡◌, ◌≢◌, refl, sym, ap, ◌∙◌, true, false, ◌&&◌, List, [], ◌∷◌, ◌++◌,
  map, All, ltb, leb, ◌==◌, is_empty, arith, Bool-cases, inl, inr,
}
use mathlib.Core.List.{append-nil}
use rust_template.Api.{Result, ok, err}
use rust_template.StaticHosting.Percent.{
  Bytes, decode_hex, push, push_pair, percent_decode, is_unreserved, hex_digit,
  percent_encode_segment,
}
use rust_template.StaticHosting.Urls.{slash, onto_first, split_segments, join_segments, encoded}

-- A byte other than the percent sign stands for itself.
pub decode-plain :
    (b : ℕ) (path : Bytes)
    → (b == b'%') ≡ false
    → percent_decode (b ∷ path) ≡ push b (percent_decode path)
unfolding percent_decode
decode-plain b [] h = rw h refl
decode-plain b (c ∷ []) h = rw h refl
decode-plain b (c ∷ d ∷ path) h = rw h refl

decode_hex-hex_digit : (d : ℕ) → d < 16 → decode_hex (hex_digit d) ≡ ok d
unfolding decode_hex hex_digit
decode_hex-hex_digit d h = elim (Bool-cases (ltb d 10)) [
  | inl e ↦
      let low : (leb b'0' (b'0' + d) && leb (b'0' + d) b'9') ≡ true = ground arith in
      rw (e, low) (ap ok (omega arith))
  | inr e ↦
      let c = b'A' + (d - 10) in
      let not_digit : (leb b'0' c && leb c b'9') ≡ false = ground arith in
      let not_lower : (leb b'a' c && leb c b'f') ≡ false = ground arith in
      let upper : (leb b'A' c && leb c b'F') ≡ true = ground arith in
      rw (e, not_digit, not_lower, upper) (ap ok (ground arith))
]

-- An escape stands for its byte.
decode-escape :
    (b : ℕ) (path : Bytes)
    → b < 256
    → percent_decode (b'%' ∷ hex_digit (b / 16) ∷ hex_digit (b % 16) ∷ path)
      ≡ push b (percent_decode path)
unfolding percent_decode push_pair
decode-escape b path h =
    rw (decode_hex-hex_digit (b / 16) (omega arith), decode_hex-hex_digit (b % 16) (omega arith))
      (ap (λ n. push n (percent_decode path)) (omega arith))

abbrev pub prepend : Bytes → Result Bytes → Result Bytes
prepend bs (ok rest) = ok (bs ++ rest)
prepend bs (err e) = err e

push-prepend : (b : ℕ) (bs : Bytes) (r : Result Bytes) → push b (prepend bs r) ≡ prepend (b ∷ bs) r
push-prepend b bs (ok rest) = refl
push-prepend b bs (err e) = refl

-- the numbers are bytes
abbrev pub AreBytes : Bytes → Type 0
AreBytes = All (λ b. b < 256)

prepend-nil : (r : Result Bytes) → prepend [] r ≡ r
prepend-nil (ok rest) = refl
prepend-nil (err e) = refl

unreserved : (b : ℕ) → is_unreserved b ≡ true → (b == b'%') ≡ false
unfolding is_unreserved
unreserved b e = ground arith

decode-encode :
    (segment path : Bytes)
    → AreBytes segment
    → percent_decode (percent_encode_segment segment ++ path)
      ≡ prepend segment (percent_decode path)
unfolding percent_encode_segment
decode-encode [] path h = sym (prepend-nil (percent_decode path))
decode-encode (b ∷ segment) path (small, h) = elim (Bool-cases (is_unreserved b)) [
  | inl e ↦ rw e (
      decode-plain b (percent_encode_segment segment ++ path) (unreserved b e)
      ∙ ap (push b) (decode-encode segment path h)
      ∙ push-prepend b segment (percent_decode path))
  | inr e ↦ rw e (
      decode-escape b (percent_encode_segment segment ++ path) small
      ∙ ap (push b) (decode-encode segment path h)
      ∙ push-prepend b segment (percent_decode path))
]

decode-joined :
    (parts : List Bytes)
    → All AreBytes parts
    → percent_decode (join_segments (map percent_encode_segment parts)) ≡ ok (join_segments parts)
unfolding percent_decode join_segments
decode-joined [] h = refl
decode-joined (part ∷ []) h =
    ap percent_decode (sym (append-nil (percent_encode_segment part)))
    ∙ decode-encode part [] h.0
    ∙ ap ok (append-nil part)
decode-joined (part ∷ next ∷ parts) h =
    let behind = join_segments (map percent_encode_segment (next ∷ parts)) in
    decode-encode part (slash ∷ behind) h.0
    ∙ ap (prepend part)
        (decode-plain slash behind refl ∙ ap (push slash) (decode-joined (next ∷ parts) h.1))

-- Splitting at the slashes and joining gives the path again.
join-onto_first :
    (b : ℕ) (parts : List Bytes) → join_segments (onto_first b parts) ≡ b ∷ join_segments parts
unfolding join_segments
join-onto_first b [] = refl
join-onto_first b (part ∷ []) = refl
join-onto_first b (part ∷ next ∷ parts) = refl

join-empty_first :
    (parts : List Bytes)
    → is_empty parts ≡ false
    → join_segments ([] ∷ parts) ≡ slash ∷ join_segments parts
unfolding join_segments
join-empty_first [] h = cc
join-empty_first (part ∷ parts) h = refl

split_nonempty : (path : Bytes) → is_empty (split_segments path) ≡ false
unfolding split_segments
split_nonempty [] = refl
split_nonempty (b ∷ path) = elim (Bool-cases (b == slash)) [
  | inl e ↦ rw e refl
  | inr e ↦ rw e (nonempty (split_segments path))
]
  where
    nonempty : (parts : List Bytes) → is_empty (onto_first b parts) ≡ false
    nonempty [] = refl
    nonempty (part ∷ parts) = refl

join-split : (path : Bytes) → join_segments (split_segments path) ≡ path
unfolding split_segments join_segments
join-split [] = refl
join-split (b ∷ path) = elim (Bool-cases (b == slash)) [
  | inl e ↦
      let same : slash ≡ b = ground arith in
      rw e (
        join-empty_first (split_segments path) (split_nonempty path)
        ∙ ap (λ p. slash ∷ p) (join-split path)
        ∙ ap (λ x. x ∷ path) same)
  | inr e ↦ rw e (join-onto_first b (split_segments path) ∙ ap (λ p. b ∷ p) (join-split path))
]

onto_first-AreBytes :
    (b : ℕ) (parts : List Bytes) → b < 256 → All AreBytes parts → All AreBytes (onto_first b parts)
onto_first-AreBytes b [] small h = ((small, tt), tt)
onto_first-AreBytes b (part ∷ parts) small h = ((small, h.0), h.1)

split-AreBytes : (path : Bytes) → AreBytes path → All AreBytes (split_segments path)
unfolding split_segments
split-AreBytes [] h = (tt, tt)
split-AreBytes (b ∷ path) h = elim (Bool-cases (b == slash)) [
  | inl e ↦ rw e (tt, split-AreBytes path h.1)
  | inr e ↦ rw e (onto_first-AreBytes b (split_segments path) h.0 (split-AreBytes path h.1))
]

pub decode-encoded : (path : Bytes) → AreBytes path → percent_decode (encoded path) ≡ ok path
decode-encoded path h =
    decode-joined (split_segments path) (split-AreBytes path h) ∙ ap ok (join-split path)

-- a path without percent signs
abbrev pub IsPlain : Bytes → Type 0
IsPlain = All (λ b. b ≢ b'%')

pub decode-prefix :
    (prefix path : Bytes)
    → IsPlain prefix
    → percent_decode (prefix ++ path) ≡ prepend prefix (percent_decode path)
decode-prefix [] path h = sym (prepend-nil (percent_decode path))
decode-prefix (b ∷ prefix) path h =
    decode-plain b (prefix ++ path) (ground (arith, h.0))
    ∙ ap (push b) (decode-prefix prefix path h.1)
    ∙ push-prepend b prefix (percent_decode path)

-- ===== src/FileStream/Asked.antt =====
-- Which range a header of a request asks for, described apart from the code of `requested_range` in
-- src/services/file_stream.rs.
use rust_template.Base.{
  ℕ, ◌+◌, ◌-◌, ◌≤◌, ◌<◌, ◌≡◌, refl, sym, ◌∙◌, ◌⊎◌, inl, inr, String, true, false, Option, none,
  some, ltb, ◌==◌, arith, Bool-cases, Option-cases, if◌then◌else◌,
}
use rust_template.Base.Text.{is_blank, split_once, contains_char, strip_prefix, parse_usize}
use rust_template.Api.{ApiError, Result, ok, err, bad_request}
use rust_template.Db.Handler.{Ends}
use rust_template.FileStream.{
  HeaderValue, Range, min, to_str, suffix_range, last_byte, bounded_range,
}
use rust_template.FileStream.Bounds.{IsBadRequest}

some_injective : {A : Type 0} {a b : A} → some a ≡ some b → a ≡ b
some_injective h = cc

-- The texts before and after the dash ask a file of that size for the range.
pub data Asked (total_size : ℕ) (first last : String) (r : Range) : Type 0 where
  -- the last `n` bytes, or all if there are fewer
  suffix :
      (n : ℕ)
      → is_blank first ≡ true
      → parse_usize last ≡ some n
      → 0 < n
      → r.start ≡ total_size - n
      → r.end ≡ total_size
      → Asked total_size first last r
  -- from the byte `a` on
  open_ended :
      (a : ℕ)
      → is_blank first ≡ false
      → parse_usize first ≡ some a
      → a < total_size
      → is_blank last ≡ true
      → r.start ≡ a
      → r.end ≡ total_size
      → Asked total_size first last r
  -- from the byte `a` to the byte `b`, or to the end of the file
  bounded :
      (a b : ℕ)
      → is_blank first ≡ false
      → parse_usize first ≡ some a
      → a < total_size
      → is_blank last ≡ false
      → parse_usize last ≡ some b
      → a ≤ b
      → r.start ≡ a
      → r.end ≡ min (b + 1) total_size
      → Asked total_size first last r

-- The header asks a file of that size for the range.
pub record AskedBy (header : HeaderValue) (total_size : ℕ) (r : Range) : Type 0 where
  pub value : String
  pub is_text : to_str header ≡ some value
  pub bytes : String
  pub unit : strip_prefix "bytes=" value ≡ some bytes
  pub single : contains_char b',' bytes ≡ false
  pub ends : String × String
  pub dash : split_once b'-' bytes ≡ some ends
  pub not_empty : 0 < total_size
  pub asked : Asked total_size ends.0 ends.1 r

-- a range of which `P` holds
abbrev pub Answers : (Range → Type 0) → Option Range → Type 0
Answers P none = ⊥
Answers P (some r) = P r

-- a bad request, since `P` holds of no range
abbrev pub Refuses : (Range → Type 0) → ApiError → Type 0
Refuses P e = IsBadRequest e × ((r : Range) → ¬ P r)

pub Ends-iff :
    {P Q : Range → Type 0} (x : Result (Option Range))
    → ((r : Range) → P r → Q r)
    → ((r : Range) → Q r → P r)
    → Ends (Answers P) (Refuses P) x
    → Ends (Answers Q) (Refuses Q) x
Ends-iff (ok none) f g h = h
Ends-iff (ok (some r)) f g h = f r h
Ends-iff (err e) f g h = (h.0, λ r q. h.1 r (g r q))

module _ (total_size : ℕ) (first last : String) where
  of_suffix :
      (r : Range)
      → is_blank first ≡ true
      → Asked total_size first last r
      → (n : ℕ) × (parse_usize last ≡ some n) × (0 < n)
  of_suffix r blank (Asked.suffix n _ p pos _ _) = (n, p, pos)
  of_suffix r blank (Asked.open_ended a e _ _ _ _ _) = absurd (cc (blank, e))
  of_suffix r blank (Asked.bounded a b e _ _ _ _ _ _ _) = absurd (cc (blank, e))

  of_first :
      (r : Range)
      → is_blank first ≡ false
      → Asked total_size first last r
      → (a : ℕ) × (parse_usize first ≡ some a)
        × (a < total_size)
        × ((is_blank last ≡ true) ⊎ ((b : ℕ) × (parse_usize last ≡ some b) × (a ≤ b)))
  of_first r text (Asked.suffix n e _ _ _ _) = absurd (cc (text, e))
  of_first r text (Asked.open_ended a _ p below blank _ _) = (a, p, below, inl blank)
  of_first r text (Asked.bounded a b _ p below _ q le _ _) = (a, p, below, inr (b, q, le))

  abbrev AskedHere : Range → Type 0
  AskedHere = Asked total_size first last

  pub suffix_range-Asked :
      is_blank first ≡ true
      → Ends (Answers AskedHere) (Refuses AskedHere) (suffix_range total_size last)
  unfolding suffix_range bad_request
  suffix_range-Asked blank = elim (Option-cases (parse_usize last)) [
    | inl missing ↦
        rw missing ((refl, refl), λ r q. let (n, p, pos) = of_suffix r blank q in cc (missing, p))
    | inr (n, found) ↦ elim (Bool-cases (n == 0)) [
      | inl z ↦
          rw (found, z)
            (
              (refl, refl),
              λ r q.
                  let (m, p, pos) = of_suffix r blank q in
                  let same : n ≡ m = some_injective (sym found ∙ p) in ground (arith, z, same, pos),
            )
      | inr z ↦ rw (found, z) (Asked.suffix n blank found (ground (arith, z)) refl refl)
    ]
  ]

  no_first : is_blank first ≡ false → parse_usize first ≡ none → (r : Range) → ¬ AskedHere r
  no_first text missing r q = let (a, p, below, rest) = of_first r text q in cc (missing, p)

  beyond :
      (a : ℕ)
      → is_blank first ≡ false
      → parse_usize first ≡ some a
      → ltb a total_size ≡ false
      → (r : Range) → ¬ AskedHere r
  beyond a text found out r q =
      let (c, p, below, rest) = of_first r text q in
      let same : a ≡ c = some_injective (sym found ∙ p) in ground (arith, out, same, below)

  bad_last :
      is_blank first ≡ false
      → is_blank last ≡ false
      → parse_usize last ≡ none
      → (r : Range) → ¬ AskedHere r
  bad_last text given missing r q =
      let (a, p, below, rest) = of_first r text q in
      elim rest [ inl blank ↦ cc (blank, given) | inr (b, found, le) ↦ cc (found, missing) ]

  reversed :
      (a b : ℕ)
      → is_blank first ≡ false
      → parse_usize first ≡ some a
      → a < total_size
      → is_blank last ≡ false
      → parse_usize last ≡ some b
      → min b (total_size - 1) < a
      → (r : Range) → ¬ AskedHere r
  reversed a b text found below given last_found out r q =
      let (c, p, _, rest) = of_first r text q in
      let same : a ≡ c = some_injective (sym found ∙ p) in
      elim rest [
        | inl blank ↦ cc (blank, given)
        | inr (d, p', le) ↦
            let same_last : b ≡ d = some_injective (sym last_found ∙ p') in
            ground (arith, out, same, same_last, le, below)
      ]

  -- the last step of `bounded_range`
  closed_at : ℕ → ℕ → Result (Option Range)
  closed_at a l =
      if ltb l a
      then err (bad_request "range is not satisfiable")
      else ok (some (record { start = a; end = l + 1 }))

  to_the_end :
      (a : ℕ)
      → is_blank first ≡ false
      → parse_usize first ≡ some a
      → a < total_size
      → is_blank last ≡ true
      → Ends (Answers AskedHere) (Refuses AskedHere) (closed_at a (total_size - 1))
  unfolding closed_at
  to_the_end a text found below blank =
      let inside : ltb (total_size - 1) a ≡ false = ground (arith, below) in
      rw inside (Asked.open_ended a text found below blank refl (omega (arith, below)))

  to_last :
      (a b : ℕ)
      → is_blank first ≡ false
      → parse_usize first ≡ some a
      → a < total_size
      → is_blank last ≡ false
      → parse_usize last ≡ some b
      → Ends (Answers AskedHere) (Refuses AskedHere) (closed_at a (min b (total_size - 1)))
  unfolding closed_at bad_request
  to_last a b text found below given last_found =
      elim (Bool-cases (ltb (min b (total_size - 1)) a)) [
        | inl e ↦
            rw e ((refl, refl), reversed a b text found below given last_found (ground (arith, e)))
        | inr e ↦ rw e (
            Asked.bounded a b text found below given last_found (ground (arith, e, below)) refl
              (ground (arith, below)))
      ]

  pub bounded_range-Asked :
      is_blank first ≡ false
      → Ends (Answers AskedHere) (Refuses AskedHere) (bounded_range total_size first last)
  unfolding bounded_range last_byte bad_request closed_at
  bounded_range-Asked text = elim (Option-cases (parse_usize first)) [
    | inl missing ↦ rw missing ((refl, refl), no_first text missing)
    | inr (a, found) ↦ elim (Bool-cases (ltb a total_size)) [
      | inr out ↦ rw (found, out) ((refl, refl), beyond a text found out)
      | inl below ↦ elim (Bool-cases (is_blank last)) [
        | inl blank ↦
            rw (found, below, blank) (to_the_end a text found (ground (arith, below)) blank)
        | inr given ↦ elim (Option-cases (parse_usize last)) [
          | inl missing ↦
              rw (found, below, given, missing) ((refl, refl), bad_last text given missing)
          | inr (b, last_found) ↦
              rw (found, below, given, last_found)
                (to_last a b text found (ground (arith, below)) given last_found)
        ]
      ]
    ]
  ]

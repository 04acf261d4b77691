-- ===== src/Payments/Amount/RoundTrip.antt =====
-- Normalising an amount keeps its value.
use Prim.Native.Char.{Char}
use Prim.Native.String.{◌++◌ as str_append}
use text.Mathlib.TextLemmas.{nil-append, cons-append}
use rust_template.Base.{
  ℕ, String, ◌≡◌, refl, sym, ap, ◌∙◌, Bool, true, false, not, ◌&&◌, ◌||◌, none, some, inl, inr, ltb,
  arith, Bool-cases, Option-cases,
}
use rust_template.Base.Text.{
  is_whitespace, trim_start, trim_end, trim, is_blank, all_chars, chars_count, is_ascii_digit,
  split_once, starts_with_char,
}
use rust_template.Api.{ok, >>=-eq-ok}
use rust_template.Payments.Amount.{
  pad2, first2, parts, cents_of, parse_amount, amount_text, normalize_amount,
}

ok_injective : {A : Type 0} {a b : A} → ok a ≡ ok b → a ≡ b
ok_injective h = cc

abbrev plain : Char → Bool
plain c = not (is_whitespace c)

digit_plain : (c : Char) → is_ascii_digit c ≡ true → is_whitespace c ≡ false
unfolding is_whitespace
digit_plain c h = ground arith

all_plain : (s : String) → all_chars is_ascii_digit s ≡ true → all_chars plain s ≡ true
all_plain String.[] h = refl
all_plain (String.◌∷◌ c s) h = ground (arith, digit_plain c, all_plain s)

all_chars-append :
    (p : Char → Bool) (s t : String)
    → all_chars p (str_append s t) ≡ (all_chars p s && all_chars p t)
all_chars-append p String.[] t = rw (nil-append t)
all_chars-append p (String.◌∷◌ c s) t =
    rw (cons-append c s t) (ground (arith, all_chars-append p s t))

trim_end-plain : (s : String) → all_chars plain s ≡ true → trim_end s ≡ s
unfolding trim_end
trim_end-plain String.[] h = refl
trim_end-plain (String.◌∷◌ c String.[]) h = ground arith
trim_end-plain (String.◌∷◌ c (String.◌∷◌ d s)) h =
    let e : trim_end (String.◌∷◌ d s) ≡ String.◌∷◌ d s =
      trim_end-plain (String.◌∷◌ d s) (ground arith) in
    rw e

trim-plain : (s : String) → all_chars plain s ≡ true → trim s ≡ s
unfolding trim trim_start
trim-plain String.[] h = refl
trim-plain (String.◌∷◌ c s) h =
    let e : is_whitespace c ≡ false = ground arith in rw e (trim_end-plain (String.◌∷◌ c s) h)

split_once-append :
    (w f : String)
    → all_chars is_ascii_digit w ≡ true
    → split_once b'.' (str_append w (str_append "." f)) ≡ some (w, f)
unfolding split_once
split_once-append String.[] f h =
    rw (nil-append (str_append "." f), cons-append "." "" f, nil-append f)
split_once-append (String.◌∷◌ c w) f h =
    rw (cons-append c w (str_append "." f), split_once-append w f (ground arith)) (ground arith)

pad2-digits :
    (f : String)
    → all_chars is_ascii_digit f ≡ true
    → ltb 2 (chars_count f) ≡ false
    → (all_chars is_ascii_digit (pad2 f) ≡ true)
      × (ltb 2 (chars_count (pad2 f)) ≡ false)
      × (first2 (pad2 (pad2 f)) ≡ first2 (pad2 f))
unfolding pad2 first2
pad2-digits String.[] h k = (refl, refl, refl)
pad2-digits (String.◌∷◌ c String.[]) h k = (ground arith, refl, refl)
pad2-digits (String.◌∷◌ c (String.◌∷◌ d s)) h k = (h, k, refl)

-- the guard of `cents_of`
abbrev well_formed : String → String → Bool
well_formed w f = not (
    is_blank w
    || not (all_chars is_ascii_digit w)
    || not (all_chars is_ascii_digit f)
    || ltb 2 (chars_count f))

cents_of-well_formed : (w f : String) (c : ℕ) → cents_of w f ≡ ok c → well_formed w f ≡ true
unfolding cents_of
cents_of-well_formed w f c h = elim (Bool-cases (well_formed w f)) [
  | inl e ↦ e
  | inr e ↦ absurd (cc (rw (e, cents_of) at h))
]

-- Filling the fraction with zeros does not change the cents.
cents_of-pad2 : (w f : String) → well_formed w f ≡ true → cents_of w (pad2 f) ≡ cents_of w f
unfolding cents_of
cents_of-pad2 w f h =
    let (d, k, e) = pad2-digits f (ground arith) (ground arith) in
    let g : well_formed w (pad2 f) ≡ true = ground arith in rw (e, g, h)

plain_text :
    (w f : String)
    → all_chars is_ascii_digit w ≡ true
    → all_chars is_ascii_digit f ≡ true
    → all_chars plain (str_append w (str_append "." f)) ≡ true
unfolding is_whitespace
plain_text w f hw hf = rw (
  all_chars-append plain w (str_append "." f),
  all_chars-append plain "." f,
  all_plain w hw,
  all_plain f hf,
)

text_head :
    (w t : String)
    → is_blank w ≡ false
    → all_chars is_ascii_digit w ≡ true
    → (is_blank (str_append w t) || starts_with_char b'-' (str_append w t)) ≡ false
text_head String.[] t h k = cc
text_head (String.◌∷◌ c w) t h k = rw (cons-append c w t) (ground arith)

-- the text that `normalize_amount` builds is its own trimmed form and splits into the two parts
parse_amount-text :
    (w f : String) → well_formed w f ≡ true → parse_amount (amount_text w f) ≡ cents_of w (pad2 f)
unfolding parse_amount amount_text parts
parse_amount-text w f h =
    let (d, k, e) = pad2-digits f (ground arith) (ground arith) in
    let hw : all_chars is_ascii_digit w ≡ true = ground arith in
    rw (
      trim-plain (str_append w (str_append "." (pad2 f))) (plain_text w (pad2 f) hw d),
      text_head w (str_append "." (pad2 f)) (ground arith) hw,
      split_once-append w (pad2 f) hw,
    )

amount-text : (w f : String) (c : ℕ) → cents_of w f ≡ ok c → parse_amount (amount_text w f) ≡ ok c
amount-text w f c h =
    let wf = cents_of-well_formed w f c h in parse_amount-text w f wf ∙ cents_of-pad2 w f wf ∙ h

-- what `parse_amount` accepts, by the parts of the trimmed text
parse_amount-parts :
    (v : String) (c : ℕ)
    → parse_amount v ≡ ok c
    → cents_of (parts (trim v)).0 (parts (trim v)).1 ≡ ok c
unfolding parse_amount
parse_amount-parts v c h = ground arith

-- the text of a parsed amount
normalized : String → String
normalized v = elim (split_once b'.' (trim v)) [
  | none ↦ str_append (trim v) ".00"
  | some (whole, fraction) ↦ amount_text whole fraction
]

normalized-value : (v : String) (c : ℕ) → parse_amount v ≡ ok c → parse_amount (normalized v) ≡ ok c
unfolding normalized parts amount_text pad2
normalized-value v c h = elim (Option-cases (split_once b'.' (trim v))) [
  | inl e ↦
      rw (e, normalized) (amount-text (trim v) "" c (rw (e, parts) at (parse_amount-parts v c h)))
  | inr (p, e) ↦
      rw (e, normalized) (amount-text p.0 p.1 c (rw (e, parts) at (parse_amount-parts v c h)))
]

-- An amount that `normalize_amount` accepts keeps its cents: parsing the stored text gives what
-- parsing the request's text gave.
pub parse_amount-normalize_amount :
    (v s : String)
    → normalize_amount v ≡ ok s
    → (c : ℕ) × (parse_amount v ≡ ok c) × (parse_amount s ≡ ok c)
unfolding normalize_amount normalized
parse_amount-normalize_amount v s h =
    let (c, e, q) = >>=-eq-ok (parse_amount v) _ h in
    (c, e, ap parse_amount (sym (ok_injective q)) ∙ normalized-value v c e)

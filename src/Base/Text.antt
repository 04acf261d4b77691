-- ===== src/Base/Text.antt =====
-- The parts of Rust's `str` that the program uses, on native texts: `trim`, `split_once`,
-- `is_empty` and tests on every character.
use Prim.Native.Char.{Char, code}
use Prim.Native.String.{String}
use mathlib.Core.Path.{◌≡◌, refl}
use mathlib.Core.Bool.{Bool, true, false, ◌&&◌, ◌||◌}
use mathlib.Core.Option
use mathlib.Core.Option.{Option, none, some}
use mathlib.Core.List.{List, [], ◌∷◌}
use Prim.Native.Nat.{ℕ, suc, ◌+◌, ◌-◌, ◌*◌, ◌^◌}
use text.Mathlib.Text.{◌==◌ as str_eq}
use rust_template.Base.Tests.{leb, ◌==◌, if◌then◌else◌}

-- `char::is_whitespace`: the White_Space characters of Unicode.
unfoldable pub is_whitespace : Char → Bool
is_whitespace ch =
    let c = code ch in
    (leb 9 c && leb c 13)
    || c == 32
    || c == 0x85
    || c == 0xA0
    || c == 0x1680
    || (leb 0x2000 c && leb c 0x200A)
    || c == 0x2028
    || c == 0x2029
    || c == 0x202F
    || c == 0x205F
    || c == 0x3000

-- `str::trim_start`
unfoldable pub trim_start : String → String
unfolding is_whitespace
trim_start String.[] = ""
trim_start (String.◌∷◌ c s) = if is_whitespace c then trim_start s else String.◌∷◌ c s

abbrev cons_trimmed : Char → String → String
cons_trimmed c String.[] = if is_whitespace c then "" else String.◌∷◌ c ""
cons_trimmed c (String.◌∷◌ d s) = String.◌∷◌ c (String.◌∷◌ d s)

-- `str::trim_end`: a character is kept if it is no white space or something after it is kept.
unfoldable pub trim_end : String → String
unfolding is_whitespace
trim_end String.[] = ""
trim_end (String.◌∷◌ c s) = cons_trimmed c (trim_end s)

-- `str::trim`
unfoldable pub trim : String → String
unfolding trim_start trim_end
trim s = trim_end (trim_start s)

-- `str::is_empty`
abbrev pub is_blank : String → Bool
is_blank String.[] = true
is_blank (String.◌∷◌ c s) = false

-- `[&str]::contains`
abbrev pub contains : List String → String → Bool
contains [] v = false
contains (x ∷ xs) v = str_eq v x || contains xs v

-- `str::chars().all(p)`
abbrev pub all_chars : (Char → Bool) → String → Bool
all_chars p String.[] = true
all_chars p (String.◌∷◌ c s) = p c && all_chars p s

-- the number of characters
abbrev pub chars_count : String → ℕ
chars_count String.[] = 0
chars_count (String.◌∷◌ c s) = suc (chars_count s)

abbrev pub is_ascii_digit : Char → Bool
is_ascii_digit ch = let c = code ch in leb 48 c && leb c 57

-- `str::split_once`: the text before the first `sep` and the text behind it
unfoldable pub split_once : ℕ → String → Option (String × String)
split_once sep String.[] = none
split_once sep (String.◌∷◌ c s) =
    if code c == sep
    then some ("", s)
    else Option.map (λ p. (String.◌∷◌ c p.0, p.1)) (split_once sep s)

-- `str::starts_with` of one character
abbrev pub starts_with_char : ℕ → String → Bool
starts_with_char k String.[] = false
starts_with_char k (String.◌∷◌ c s) = code c == k

-- `str::strip_suffix` of one character
unfoldable pub strip_suffix_char : ℕ → String → Option String
strip_suffix_char sep String.[] = none
strip_suffix_char sep (String.◌∷◌ c String.[]) = if code c == sep then some "" else none
strip_suffix_char sep (String.◌∷◌ c (String.◌∷◌ d s)) =
    Option.map (λ rest. String.◌∷◌ c rest) (strip_suffix_char sep (String.◌∷◌ d s))

-- `char::to_ascii_lowercase`, of the code
abbrev pub to_ascii_lowercase : ℕ → ℕ
to_ascii_lowercase c = if leb 65 c && leb c 90 then c + 32 else c

-- `str::eq_ignore_ascii_case`
unfoldable pub eq_ignore_ascii_case : String → String → Bool
eq_ignore_ascii_case String.[] String.[] = true
eq_ignore_ascii_case (String.◌∷◌ c s) (String.◌∷◌ d t) =
    to_ascii_lowercase (code c) == to_ascii_lowercase (code d) && eq_ignore_ascii_case s t
eq_ignore_ascii_case _ _ = false

-- the value of a text of digits
unfoldable pub digits_value : ℕ → String → ℕ
digits_value n String.[] = n
digits_value n (String.◌∷◌ c s) = digits_value (n * 10 + (code c - 48)) s

-- the digits of `str::parse` into an unsigned type
unfoldable pub parse_digits : ℕ → String → Option ℕ
unfolding digits_value
parse_digits max s =
    if is_blank s
    then none
    else if all_chars is_ascii_digit s && leb (digits_value 0 s) max
    then some (digits_value 0 s)
    else none

-- `str::parse::<usize>()`: digits with an optional plus sign before them
unfoldable pub parse_usize : String → Option ℕ
unfolding parse_digits
parse_usize String.[] = none
parse_usize (String.◌∷◌ c s) =
    if code c == b'+'
    then parse_digits (2 ^ 64 - 1) s
    else parse_digits (2 ^ 64 - 1) (String.◌∷◌ c s)

-- `str::strip_prefix`
unfoldable pub strip_prefix : String → String → Option String
strip_prefix String.[] s = some s
strip_prefix (String.◌∷◌ p prefix) String.[] = none
strip_prefix (String.◌∷◌ p prefix) (String.◌∷◌ c s) =
    if code p == code c then strip_prefix prefix s else none

-- `str::contains` of one character
unfoldable pub contains_char : ℕ → String → Bool
contains_char k String.[] = false
contains_char k (String.◌∷◌ c s) = code c == k || contains_char k s

trims : trim "  a b\t\n" ≡ "a b"
unfolding trim
trims = refl

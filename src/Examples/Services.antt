-- ===== src/Examples/Services.antt =====
-- The theorems on the rate limiter, the settings and the streams of files at small inputs.
use mathlib.Core.Bool.{and-eq-true_iff}
use rust_template.Base.{
  ℕ, zero, suc, ◌-◌, ◌*◌, ◌^◌, ◌≤◌, ◌<◌, String, ◌≡◌, refl, ap, true, false, Bool, ◌&&◌, ltb,
  Option, some, List, [], ◌∷◌, ◌++◌, length, take, drop, length-drop, arith,
}
use rust_template.Base.Int.{ℤ, pos}
use rust_template.Db.Handler.{Ends, RunsIf}
use rust_template.Db.Rules.{Reads}
use rust_template.Api.{database_error}
use rust_template.Settings.{bytes_per_mib, upload_limit_bytes}
use rust_template.Settings.Bounds.{upload_limit_bytes_lem}
use rust_template.RateLimit.Rules.{Arrival, handle_rate_limit}
use rust_template.RateLimit.History.{Attempt, let_through, decide, reference, decide-reference}
use rust_template.RateLimit.Bounds.{IsBounded, let_through-IsBounded}
use rust_template.RateLimit.Middleware.{Answered, handle_rate_limit_lem}
use rust_template.FileStream.{text}
use rust_template.FileStream.Stream.{LocalFile, Texts, unfold_stream, serve_file}
use rust_template.FileStream.Delivery.{Reads as FileReads, Yields, concat-unfold_stream}
use rust_template.FileStream.Served.{Delivered, Refused, serve_file_lem}
use rust_template.StaticHosting.Urls.{StaticSiteConfig, trim_slashes, match_site}
use rust_template.StaticHosting.Sites.{IsChoice, match_site_lem}
use rust_template.StaticHosting.Resolve.{LeadsTo, IsUtf8Test, public_file_url-LeadsTo}
use rust_template.Examples.{env, tables}

abbrev second : ℕ
second = 1_000_000_000

-- three attempts in a minute, one more an hour later
abbrev attempts : List Attempt
attempts =
    record { time = 0; key = "k" }
    ∷ record { time = second; key = "k" }
    ∷ record { time = 2 * second; key = "k" }
    ∷ record { time = 3600 * second; key = "k" }
    ∷ []

abbrev two : String → ℤ
two key = pos 2

abbrev minute : String → ℤ
minute key = pos 60

-- The third attempt is refused, the last one is not.
decisions : decide two minute [] attempts ≡ false ∷ false ∷ true ∷ false ∷ []
unfolding decide
decisions = refl

decide-reference_example : decide two minute [] attempts ≡ reference two minute [] attempts
decide-reference_example =
    decide-reference two minute attempts
      (omega arith, (omega arith, (omega arith, (omega arith, tt))))

let_through-IsBounded_example :
    IsBounded two minute (let_through attempts (decide two minute [] attempts))
let_through-IsBounded_example =
    let_through-IsBounded two minute attempts
      (omega arith, (omega arith, (omega arith, (omega arith, tt))))

abbrev arrival : Arrival
arrival = record { path = "/api/auth/login"; method = "POST"; ip = some "10.0.0.1" }

handle_rate_limit_lem_example :
    RunsIf ⊥
      (handle_rate_limit env second arrival [])
      tables
      (Answered ⊥ env second arrival [] tables)
handle_rate_limit_lem_example = handle_rate_limit_lem ⊥ env second arrival [] tables

upload_limit_bytes_lem_example :
    Reads upload_limit_bytes tables
      (λ limit. (bytes_per_mib ≤ limit) × (limit ≤ 2 ^ 63 - 1))
      (λ e. e ≡ database_error)
upload_limit_bytes_lem_example = upload_limit_bytes_lem tables

take-drop : {A : Type 0} (n : ℕ) (xs : List A) → xs ≡ take n xs ++ drop n xs
take-drop zero xs = refl
take-drop (suc n) [] = refl
take-drop (suc n) (x ∷ xs) = ap (λ zs. x ∷ zs) (take-drop n xs)

length-take-le : {A : Type 0} (n : ℕ) (xs : List A) → length (take n xs) ≤ n
length-take-le zero xs = omega arith
length-take-le (suc n) [] = omega arith
length-take-le (suc n) (x ∷ xs) = omega (arith, length-take-le n xs)

take-pos : {A : Type 0} (n : ℕ) (xs : List A) → 0 < n → 0 < length xs → 0 < length (take n xs)
take-pos zero xs p q = absurd (omega arith)
take-pos (suc n) [] p q = absurd (omega arith)
take-pos (suc n) (x ∷ xs) p q = omega arith

abbrev bytes : List ℕ
bytes = 72 ∷ 101 ∷ 108 ∷ 108 ∷ 111 ∷ []

-- each read fills the buffer as far as it can
abbrev read_bytes : ℕ → ℕ → Option (List ℕ)
read_bytes place size = some (take size (drop place bytes))

bytes-Reads : FileReads bytes read_bytes
bytes-Reads = record {
  chunk = λ place size. take size (drop place bytes);
  works = λ place size. refl;
  behind = λ place size. drop size (drop place bytes);
  next_bytes = λ place size. take-drop size (drop place bytes);
  fits = λ place size. length-take-le size (drop place bytes);
  progress = λ place size p q.
      take-pos size (drop place bytes) p (omega (arith, length-drop place bytes (omega arith)));
}

abbrev hello : LocalFile ℕ
hello = record { content = bytes; opens = true; seeks = true; read = read_bytes }

abbrev texts : Texts
texts = record { decimal = λ n. "5"; accepts = λ s. true }

concat-unfold_stream_example : Yields (unfold_stream read_bytes 3 1 3) (take 3 (drop 1 bytes))
concat-unfold_stream_example =
    concat-unfold_stream bytes read_bytes bytes-Reads 3 1 3 (omega arith) (omega arith)

serve_file_lem_example :
    Ends
      (Delivered texts hello (some (text "bytes=1-3")))
      (Refused texts hello (some (text "bytes=1-3")))
      (serve_file texts (some (text "bytes=1-3")) hello [])
serve_file_lem_example =
    serve_file_lem texts hello [] (record { numbers = λ n. refl; ranges = λ c. refl }) bytes-Reads
      refl refl (some (text "bytes=1-3"))

abbrev docs : StaticSiteConfig
docs = record {
  key = "docs";
  name = "docs";
  url_path = 47 ∷ 100 ∷ [];
  local_root = "";
  index_file = "";
  spa_fallback = false;
  directory_listing = false;
  enabled = true;
  cache_seconds = 0;
}

-- the path `/d/a`
match_site_lem_example :
    IsChoice
      (docs ∷ [])
      (47 ∷ 100 ∷ 47 ∷ 97 ∷ [])
      (match_site (docs ∷ []) (47 ∷ 100 ∷ 47 ∷ 97 ∷ []))
match_site_lem_example = match_site_lem (docs ∷ []) (47 ∷ 100 ∷ 47 ∷ 97 ∷ [])

-- ASCII texts are UTF-8
abbrev is_ascii : List ℕ → Bool
is_ascii [] = true
is_ascii (b ∷ bs) = ltb b 128 && is_ascii bs

is_ascii-append :
    (xs ys : List ℕ) → is_ascii xs ≡ true → is_ascii ys ≡ true → is_ascii (xs ++ ys) ≡ true
is_ascii-append [] ys h k = k
is_ascii-append (x ∷ xs) ys h k =
    let (small, rest) = (and-eq-true_iff (ltb x 128) (is_ascii xs)).0 h in
    rw (small, is_ascii-append xs ys rest k) refl

is_ascii-IsUtf8Test : IsUtf8Test is_ascii
is_ascii-IsUtf8Test = record { slash_alone = refl; append = is_ascii-append }

public_file_url-LeadsTo_example : LeadsTo is_ascii (47 ∷ 100 ∷ []) (97 ∷ 32 ∷ 98 ∷ [])
unfolding trim_slashes
public_file_url-LeadsTo_example =
    public_file_url-LeadsTo is_ascii is_ascii-IsUtf8Test (47 ∷ 100 ∷ [])
      (omega arith, (omega arith, tt)) refl (97 ∷ 32 ∷ 98 ∷ []) refl
      (omega arith, (omega arith, (omega arith, tt))) refl

-- ===== src/StaticHosting/Urls.antt =====
-- `public_file_url`, `matched_relative_path`, `is_reserved_request_path` and `match_site` of
-- src/services/static_hosting.rs.
use rust_template.Base.{
  ℕ, String, Bool, true, false, ◌&&◌, ◌||◌, Option, none, some, List, [], ◌∷◌, ◌++◌, map, any,
  is_some, length, ltb, ◌==◌, if◌then◌else◌,
}
use rust_template.StaticHosting.Percent.{Bytes, percent_encode_segment}

-- `struct StaticSiteConfig`
pub record StaticSiteConfig : Type 0 where
  pub key : String
  pub name : String
  pub url_path : Bytes
  pub local_root : String
  pub index_file : String
  pub spa_fallback : Bool
  pub directory_listing : Bool
  pub enabled : Bool
  pub cache_seconds : ℕ

abbrev pub slash : ℕ
slash = b'/'

-- equality of texts
unfoldable pub same_bytes : Bytes → Bytes → Bool
same_bytes [] [] = true
same_bytes (x ∷ xs) (y ∷ ys) = x == y && same_bytes xs ys
same_bytes _ _ = false

-- what `split` adds to its first part
abbrev pub onto_first : ℕ → List Bytes → List Bytes
onto_first b [] = (b ∷ []) ∷ []
onto_first b (part ∷ parts) = (b ∷ part) ∷ parts

-- `str::split('/')`
unfoldable pub split_segments : Bytes → List Bytes
split_segments [] = [] ∷ []
split_segments (b ∷ path) =
    let rest = split_segments path in if b == slash then [] ∷ rest else onto_first b rest

-- `join("/")`
unfoldable pub join_segments : List Bytes → Bytes
join_segments [] = []
join_segments (part ∷ []) = part
join_segments (part ∷ next ∷ parts) = part ++ slash ∷ join_segments (next ∷ parts)

-- `str::strip_prefix`
unfoldable pub strip_prefix : Bytes → Bytes → Option Bytes
strip_prefix [] path = some path
strip_prefix (p ∷ prefix) [] = none
strip_prefix (p ∷ prefix) (b ∷ path) = if p == b then strip_prefix prefix path else none

-- `trim_start_matches('/')`
unfoldable pub trim_slashes : Bytes → Bytes
trim_slashes [] = []
trim_slashes (b ∷ path) = if b == slash then trim_slashes path else b ∷ path

abbrev pub encoded : Bytes → Bytes
encoded relative = join_segments (map percent_encode_segment (split_segments relative))

unfoldable pub public_file_url : Bytes → Bytes → Bytes
unfolding split_segments join_segments percent_encode_segment same_bytes
public_file_url url_path [] = url_path
public_file_url url_path (b ∷ relative) =
    if same_bytes url_path (slash ∷ [])
    then slash ∷ encoded (b ∷ relative)
    else url_path ++ slash ∷ encoded (b ∷ relative)

abbrev pub behind_prefix : Option Bytes → Option Bytes
behind_prefix none = none
behind_prefix (some remaining) = strip_prefix (slash ∷ []) remaining

unfoldable pub matched_relative_path : Bytes → Bytes → Option Bytes
unfolding trim_slashes same_bytes strip_prefix
matched_relative_path prefix request_path =
    if same_bytes prefix (slash ∷ [])
    then some (trim_slashes request_path)
    else if same_bytes request_path prefix
    then some []
    else behind_prefix (strip_prefix prefix request_path)

abbrev pub Match : Type 0
Match = StaticSiteConfig × Bytes

-- `max_by_key(url_path.len())`: of matches that are equally long the last one
abbrev pub longer_of : Match → Option Match → Match
longer_of m none = m
longer_of m (some n) = if ltb (length n.0.url_path) (length m.0.url_path) then m else n

abbrev pub with_site : StaticSiteConfig → Option Bytes → Option Match → Option Match
with_site site none rest = rest
with_site site (some relative) rest = some (longer_of (site, relative) rest)

unfoldable pub match_site : List StaticSiteConfig → Bytes → Option Match
unfolding matched_relative_path
match_site [] request_path = none
match_site (site ∷ sites) request_path =
    let rest = match_site sites request_path in
    if site.enabled
    then with_site site (matched_relative_path site.url_path request_path) rest
    else rest

-- `is_reserved_request_path`, of the prefixes given
unfoldable pub is_reserved : List Bytes → Bytes → Bool
unfolding same_bytes strip_prefix
is_reserved prefixes path =
    any (λ prefix. same_bytes path prefix || is_some (strip_prefix (prefix ++ slash ∷ []) path))
      prefixes

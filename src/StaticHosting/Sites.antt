-- ===== src/StaticHosting/Sites.antt =====
-- `match_site` chooses the enabled site with the longest path that matches.
use mathlib.Core.List.{Memᴰ}
use mathlib.Core.List.Memᴰ
use rust_template.Base.{
  ◌≤◌, ◌≡◌, refl, ap, Bool, true, false, Option, none, some, List, [], ◌∷◌, length, ltb, arith,
  Bool-cases, inl, inr, if◌then◌else◌,
}
use rust_template.StaticHosting.Percent.{Bytes}
use rust_template.StaticHosting.Urls.{
  StaticSiteConfig, Match, longer_of, with_site, matched_relative_path, match_site,
}

-- an enabled site of the list whose path matches and leaves the relative path
pub record IsMatch (sites : List StaticSiteConfig) (path : Bytes) (m : Match) : Type 0 where
  pub listed : Memᴰ m.0 sites
  pub enabled : m.0.enabled ≡ true
  pub matches : matched_relative_path m.0.url_path path ≡ some m.1

-- the choice: a match that is as long as any, or none if there is none
abbrev pub IsChoice : List StaticSiteConfig → Bytes → Option Match → Type 0
IsChoice sites path none = (m : Match) → ¬ IsMatch sites path m
IsChoice sites path (some best) =
    IsMatch sites path best
    × ((m : Match) → IsMatch sites path m → length m.0.url_path ≤ length best.0.url_path)

later :
    (site : StaticSiteConfig) {sites : List StaticSiteConfig} {path : Bytes} {m : Match}
    → IsMatch sites path m
    → IsMatch (site ∷ sites) path m
later site m = record { listed = Memᴰ.tail m.listed; enabled = m.enabled; matches = m.matches }

-- A match of the longer list is the first site or one of the others.
no_first :
    (site : StaticSiteConfig) (sites : List StaticSiteConfig) (path : Bytes)
    → ((m : Match) → m.0 ≡ site → ¬ IsMatch (site ∷ sites) path m)
    → (o : Option Match) → IsChoice sites path o
    → IsChoice (site ∷ sites) path o
no_first site sites path apart none c = λ m h. elim (Memᴰ.cases_cons h.listed) [
  | inl e ↦ apart m e h
  | inr k ↦ c m (record { listed = k; enabled = h.enabled; matches = h.matches })
]
no_first site sites path apart (some best) c = (
  later site c.0,
  λ m h. elim (Memᴰ.cases_cons h.listed) [
    | inl e ↦ absurd (apart m e h)
    | inr k ↦ c.1 m (record { listed = k; enabled = h.enabled; matches = h.matches })
  ],
)

with_first :
    (site : StaticSiteConfig) (sites : List StaticSiteConfig) (path relative : Bytes)
    → site.enabled ≡ true
    → matched_relative_path site.url_path path ≡ some relative
    → (o : Option Match) → IsChoice sites path o
    → IsChoice (site ∷ sites) path (some (longer_of (site, relative) o))
with_first site sites path relative on found none c = (
  record { listed = Memᴰ.head refl; enabled = on; matches = found },
  λ m h. elim (Memᴰ.cases_cons h.listed) [
    | inl e ↦ rw e (omega arith)
    | inr k ↦ absurd (c m (record { listed = k; enabled = h.enabled; matches = h.matches }))
  ],
)
with_first site sites path relative on found (some best) c =
    elim (Bool-cases (ltb (length best.0.url_path) (length site.url_path))) [
      | inl longer ↦ rw longer (
        record { listed = Memᴰ.head refl; enabled = on; matches = found },
        λ m h. elim (Memᴰ.cases_cons h.listed) [
          | inl e ↦ rw e (omega arith)
          | inr k ↦
              let below = c.1 m (record { listed = k; enabled = h.enabled; matches = h.matches }) in
              ground arith
        ],
      )
      | inr shorter ↦ rw shorter (
        later site c.0,
        λ m h. elim (Memᴰ.cases_cons h.listed) [
          | inl e ↦ rw e (ground arith)
          | inr k ↦ c.1 m (record { listed = k; enabled = h.enabled; matches = h.matches })
        ],
      )
    ]

-- one round, on whether the site is enabled and on what matches
round :
    (site : StaticSiteConfig) (sites : List StaticSiteConfig) (path : Bytes) (on : Bool)
    (o : Option Bytes)
    → site.enabled ≡ on
    → matched_relative_path site.url_path path ≡ o
    → (rest : Option Match) → IsChoice sites path rest
    → IsChoice (site ∷ sites) path (if on then with_site site o rest else rest)
round site sites path true none on missing rest c =
    no_first site sites path
      (λ m e h. cc (missing, h.matches, ap (λ s. matched_relative_path s.url_path path) e)) rest c
round site sites path true (some relative) on found rest c =
    with_first site sites path relative on found rest c
round site sites path false o off found rest c =
    no_first site sites path (λ m e h. cc (off, h.enabled, ap (λ s. s.enabled) e)) rest c

-- `match_site` answers a site of the list that is enabled and matches, with the rest of the path,
-- and no enabled site that matches has a longer path; it answers none only if none matches.
pub match_site_lem :
    (sites : List StaticSiteConfig) (path : Bytes) → IsChoice sites path (match_site sites path)
unfolding match_site
match_site_lem [] path = λ m h. elim (h.listed) [ ]
match_site_lem (site ∷ sites) path =
    round site sites path site.enabled (matched_relative_path site.url_path path) refl refl
      (match_site sites path) (match_site_lem sites path)

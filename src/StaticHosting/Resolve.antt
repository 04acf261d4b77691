-- ===== src/StaticHosting/Resolve.antt =====
-- The public URL of a hosted file leads back to the file.
use rust_template.Base.{
  ℕ, Bool, ◌≡◌, refl, sym, ap, ◌∙◌, true, false, some, [], ◌∷◌, ◌++◌, ◌==◌, ==_refl, arith,
  Bool-cases, inl, inr,
}
use mathlib.Core.List.{append-nil}
use rust_template.Api.{ok}
use rust_template.StaticHosting.Percent.{Bytes, push, percent_decode, percent_decode_path}
use rust_template.StaticHosting.Urls.{
  slash, same_bytes, strip_prefix, trim_slashes, encoded, public_file_url, matched_relative_path,
}
use rust_template.StaticHosting.RoundTrip.{
  AreBytes, IsPlain, prepend, decode-plain, decode-encoded, decode-prefix,
}

same_bytes_refl : (xs : Bytes) → same_bytes xs xs ≡ true
unfolding same_bytes
same_bytes_refl [] = refl
same_bytes_refl (x ∷ xs) = rw (==_refl x) (same_bytes_refl xs)

same_bytes-eq : (xs ys : Bytes) → same_bytes xs ys ≡ true → xs ≡ ys
unfolding same_bytes
same_bytes-eq [] [] h = refl
same_bytes-eq [] (y ∷ ys) h = cc
same_bytes-eq (x ∷ xs) [] h = cc
same_bytes-eq (x ∷ xs) (y ∷ ys) h = elim (Bool-cases (x == y)) [
  | inl e ↦
      let same : x ≡ y = ground arith in
      let rest = same_bytes-eq xs ys (rw e at h) in cc (same, rest)
  | inr e ↦ absurd (cc (rw e at h))
]

-- A longer path is another path.
same_bytes-longer : (xs ys : Bytes) (b : ℕ) → same_bytes (xs ++ b ∷ ys) xs ≡ false
unfolding same_bytes
same_bytes-longer [] ys b = refl
same_bytes-longer (x ∷ xs) ys b = rw (==_refl x) (same_bytes-longer xs ys b)

strip_prefix-append : (prefix path : Bytes) → strip_prefix prefix (prefix ++ path) ≡ some path
unfolding strip_prefix
strip_prefix-append [] path = refl
strip_prefix-append (p ∷ prefix) path = rw (==_refl p) (strip_prefix-append prefix path)

decode-slash :
    (relative : Bytes)
    → AreBytes relative
    → percent_decode (slash ∷ encoded relative) ≡ ok (slash ∷ relative)
decode-slash relative h =
    decode-plain slash (encoded relative) refl ∙ ap (push slash) (decode-encoded relative h)

-- What is relied on of UTF-8: a slash is UTF-8, and two texts behind each other are.
pub record IsUtf8Test (is_utf8 : Bytes → Bool) : Type 0 where
  pub slash_alone : is_utf8 (slash ∷ []) ≡ true
  pub append : (xs ys : Bytes) → is_utf8 xs ≡ true → is_utf8 ys ≡ true → is_utf8 (xs ++ ys) ≡ true

module _ (is_utf8 : Bytes → Bool) (url_path relative : Bytes) where
  -- the URL is decoded to a path that matches the site and leaves the relative path
  abbrev pub LeadsTo : Type 0
  LeadsTo =
      (decoded : Bytes) × (percent_decode_path is_utf8 (public_file_url url_path relative)
        ≡ ok decoded)
      × (matched_relative_path url_path decoded ≡ some relative)

  from_decoded :
      (decoded : Bytes)
      → percent_decode (public_file_url url_path relative) ≡ ok decoded
      → is_utf8 decoded ≡ true
      → matched_relative_path url_path decoded ≡ some relative
      → LeadsTo
  unfolding percent_decode_path
  from_decoded decoded e utf8 matched = (decoded, rw (e, utf8) refl, matched)

module _ (is_utf8 : Bytes → Bool) (test : IsUtf8Test is_utf8) (url_path : Bytes)
    (plain : IsPlain url_path) (url_utf8 : is_utf8 url_path ≡ true) where
  to_site : LeadsTo is_utf8 url_path []
  unfolding public_file_url matched_relative_path percent_decode
  to_site =
      from_decoded is_utf8 url_path [] url_path
        (ap percent_decode (sym (append-nil url_path))
          ∙ decode-prefix url_path [] plain
          ∙ ap ok (append-nil url_path))
        url_utf8
        (elim (Bool-cases (same_bytes url_path (slash ∷ []))) [
          | inl e ↦ rw (e, same_bytes-eq url_path (slash ∷ []) e) refl
          | inr e ↦ rw (e, same_bytes_refl url_path) refl
        ])

  -- If the paths of the site and of the file are UTF-8, the path of the site has no percent sign,
  -- and the relative path consists of bytes and does not start with a slash, then the public URL of
  -- the file is decoded to a path that matches the site and leaves exactly the relative path.
  pub public_file_url-LeadsTo :
      (relative : Bytes)
      → is_utf8 relative ≡ true
      → AreBytes relative
      → trim_slashes relative ≡ relative
      → LeadsTo is_utf8 url_path relative
  unfolding public_file_url matched_relative_path trim_slashes strip_prefix
  public_file_url-LeadsTo [] utf8 small trimmed = to_site
  public_file_url-LeadsTo (b ∷ relative) utf8 small trimmed =
      let behind = test.append (slash ∷ []) (b ∷ relative) test.slash_alone utf8 in
      elim (Bool-cases (same_bytes url_path (slash ∷ []))) [
        | inl e ↦
            from_decoded is_utf8 url_path (b ∷ relative) (slash ∷ b ∷ relative)
              (rw e (decode-slash (b ∷ relative) small)) behind (rw e (ap some trimmed))
        | inr e ↦
            from_decoded is_utf8 url_path (b ∷ relative) (url_path ++ slash ∷ b ∷ relative)
              (rw e (
                decode-prefix url_path (slash ∷ encoded (b ∷ relative)) plain
                ∙ ap (prepend url_path) (decode-slash (b ∷ relative) small)))
              (test.append url_path (slash ∷ b ∷ relative) url_utf8 behind)
              (rw
                (
                  e,
                  same_bytes-longer url_path (b ∷ relative) slash,
                  strip_prefix-append url_path (slash ∷ b ∷ relative),
                )
                refl)
      ]

-- ===== src/RateLimit/Buckets.antt =====
-- `increment_and_check` of src/middleware/rate_limit.rs, with the static RATE_LIMIT_BUCKETS as the
-- state that it takes and returns. The lock is held for the whole function, so two calls never
-- overlap; nothing in it panics, so the lock is never poisoned. An `Instant` is a number of
-- nanoseconds.
use rust_template.Base.{
  ℕ, String, ◌-◌, ◌*◌, ◌≡◌, refl, Bool, true, false, List, [], ◌∷◌, ◌++◌, filter, length, leb,
  str_eq, eq_iff, arith, if◌then◌else◌, unwrap_or,
}
use rust_template.Base.Int.{ℤ, pos, try_from, usize_max}

-- `HashMap<String, Vec<Instant>>`
abbrev pub Buckets : Type 0
Buckets = List (String × List ℕ)

-- `buckets.entry(key).or_default()`
unfoldable pub entries_of : String → Buckets → List ℕ
entries_of key [] = []
entries_of key ((k, times) ∷ rest) = if str_eq k key then times else entries_of key rest

-- writing through the reference that `entry` returns
unfoldable pub with_entries : String → List ℕ → Buckets → Buckets
with_entries key times [] = (key, times) ∷ []
with_entries key times ((k, old) ∷ rest) =
    if str_eq k key then (k, times) ∷ rest else (k, old) ∷ with_entries key times rest

-- `Duration::from_secs(u64::try_from(window_seconds).unwrap_or(60))`
unfoldable pub window_of : ℤ → ℕ
window_of window_seconds = unwrap_or (try_from window_seconds) 60 * 1_000_000_000

-- `usize::try_from(limit_count).unwrap_or(usize::MAX)`
unfoldable pub limit_of : ℤ → ℕ
limit_of limit_count = unwrap_or (try_from limit_count) usize_max

-- `now.duration_since(instant) <= window`; the difference of instants saturates at zero
unfoldable pub within : ℕ → ℕ → ℕ → Bool
within window now instant = leb (now - instant) window

-- `increment_and_check` at the time `now`
unfoldable pub increment_and_check : ℕ → String → ℤ → ℤ → Buckets → Bool × Buckets
unfolding entries_of with_entries window_of limit_of within
increment_and_check now key limit_count window_seconds buckets =
    let entries = filter (within (window_of window_seconds) now) (entries_of key buckets) in
    if leb (limit_of limit_count) (length entries)
    then (true, with_entries key entries buckets)
    else (false, with_entries key (entries ++ now ∷ []) buckets)

-- Writing under one key changes what stands under that key only.
pub entries_of-with_entries :
    (k j : String) (ts : List ℕ) (b : Buckets)
    → entries_of j (with_entries k ts b) ≡ (if str_eq k j then ts else entries_of j b)
unfolding entries_of with_entries
entries_of-with_entries k j ts [] = refl
entries_of-with_entries k j ts ((i, old) ∷ b) =
    ground (arith, eq_iff k j, eq_iff i k, eq_iff i j, entries_of-with_entries k j ts b)

third_refused : (increment_and_check 20 "k" (pos 2) (pos 60) (("k", 5 ∷ 9 ∷ []) ∷ [])).0 ≡ true
unfolding increment_and_check
third_refused = refl

-- ===== src/RateLimit/Bounds.antt =====
-- What the limiter promises: no window holds more requests of a key than its limit.
use mathlib.Core.List.{append-nil, append_assoc}
use rust_template.Base.{
  ℕ, String, ◌+◌, ◌≤◌, ◌≡◌, false, List, [], ◌∷◌, ◌++◌, filter, length, str_eq, eq_iff,
  if◌then◌else◌, arith, inl, inr, Bool-cases,
}
use rust_template.Base.Int.{ℤ}
use rust_template.RateLimit.Buckets.{limit_of, within}
use rust_template.RateLimit.History.{
  window, refuses, Attempt, Ordered, times_of, let_through, in_window, decide, reference,
  decide-reference,
}

module _ (limit_count window_seconds : String → ℤ) where
  -- how many requests of the key stand in the window that ends at `now`
  unfoldable pub count_in : List Attempt → String → ℕ → ℕ
  count_in history key now =
      length (filter (in_window (window limit_count window_seconds key) now) (times_of key history))

  pub IsBounded : List Attempt → Type 0
  IsBounded history =
      (key : String) (now : ℕ) → count_in history key now ≤ limit_of (limit_count key)

  -- The window that ends at `now` is within the last one before a later request.
  filter-le :
      (w t u : ℕ) (xs : List ℕ)
      → t ≤ u
      → length (filter (in_window w u) xs) ≤ length (filter (within w t) xs)
  unfolding within
  filter-le w t u [] h = omega arith
  filter-le w t u (x ∷ xs) h = ground (arith, filter-le w t u xs h)

  count-append :
      (h : List Attempt) (a : Attempt) (key : String) (now : ℕ)
      → count_in (h ++ a ∷ []) key now
        ≡ count_in h key now
          + (if str_eq a.key key
              then (if in_window (window limit_count window_seconds key) now a.time then 1 else 0)
              else 0)
  unfolding count_in
  count-append [] a key now = ground arith
  count-append (x ∷ h) a key now = ground (arith, count-append h a key now)

  -- A request that is not refused finds room in the window, whenever the window ends.
  room :
      (h : List Attempt) (a : Attempt) (now : ℕ)
      → refuses limit_count window_seconds h a ≡ false
      → IsBounded h
      → count_in h a.key now
          + (if in_window (window limit_count window_seconds a.key) now a.time then 1 else 0)
        ≤ limit_of (limit_count a.key)
  unfolding IsBounded count_in refuses
  room h a now e bounded =
      elim (Bool-cases (in_window (window limit_count window_seconds a.key) now a.time)) [
        | inl i ↦ rw i (
            ground (
              arith,
              e,
              filter-le (window limit_count window_seconds a.key) a.time now (times_of a.key h)
                  (ground (arith, i)),
            ))
        | inr i ↦ rw i (omega (arith, bounded a.key now))
      ]

  admitted-IsBounded :
      (h : List Attempt) (a : Attempt)
      → refuses limit_count window_seconds h a ≡ false
      → IsBounded h
      → IsBounded (h ++ a ∷ [])
  unfolding IsBounded
  admitted-IsBounded h a e bounded key now =
      rw (count-append h a key now) (elim (Bool-cases (str_eq a.key key)) [
        | inl same ↦ rw (same, ← (eq_iff a.key key).0 same) (room h a now e bounded)
        | inr other ↦ rw other (omega (arith, bounded key now))
      ])

  reference-IsBounded :
      (h calls : List Attempt)
      → IsBounded h
      → IsBounded (h ++ let_through calls (reference limit_count window_seconds h calls))
  unfolding reference
  reference-IsBounded h [] bounded = rw (append-nil h) bounded
  reference-IsBounded h (a ∷ rest) bounded =
      elim (Bool-cases (refuses limit_count window_seconds h a)) [
        | inl e ↦ rw e (reference-IsBounded h rest bounded)
        | inr e ↦
            rw (e, ← append_assoc h (a ∷ []) _)
              (reference-IsBounded (h ++ a ∷ []) rest (admitted-IsBounded h a e bounded))
      ]

  -- Whichever calls are made at times that do not run backwards, every window of a key's rule,
  -- whenever it ends, holds at most as many requests that were let through as the rule's limit.
  pub let_through-IsBounded :
      (calls : List Attempt)
      → Ordered 0 calls
      → IsBounded (let_through calls (decide limit_count window_seconds [] calls))
  unfolding IsBounded count_in
  let_through-IsBounded calls o =
      rw (decide-reference limit_count window_seconds calls o)
        (reference-IsBounded [] calls (λ key now. omega arith))

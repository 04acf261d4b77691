-- ===== src/RateLimit/History.antt =====
-- What `increment_and_check` decides over time, against a limiter that remembers every request it
-- let through. The limit and the window belong to the key, as a rule's id is part of it.
use rust_template.Base.{
  ℕ, String, ◌-◌, ◌≤◌, ◌≡◌, refl, sym, ap, ◌∙◌, Bool, true, false, ◌&&◌, List, [], ◌∷◌, ◌++◌,
  filter, filter-append, length, leb, str_eq, eq_iff, if◌then◌else◌, arith, inl, inr, Bool-cases,
}
use rust_template.Base.Int.{ℤ}
use rust_template.RateLimit.Buckets.{
  Buckets, entries_of, with_entries, window_of, limit_of, within, increment_and_check,
  entries_of-with_entries,
}

-- a call of `increment_and_check`: when, and with which key
pub record Attempt : Type 0 where
  pub time : ℕ
  pub key : String

-- Time does not run backwards (`Instant` is monotonic).
abbrev pub Ordered : ℕ → List Attempt → Type 0
Ordered last [] = Unit
Ordered last (a ∷ rest) = (last ≤ a.time) × Ordered a.time rest

abbrev pub times_of : String → List Attempt → List ℕ
times_of key [] = []
times_of key (a ∷ rest) = if str_eq a.key key then a.time ∷ times_of key rest else times_of key rest

-- the attempts that were not refused
abbrev pub let_through : List Attempt → List Bool → List Attempt
let_through (a ∷ rest) (false ∷ rs) = a ∷ let_through rest rs
let_through (a ∷ rest) (true ∷ rs) = let_through rest rs
let_through _ _ = []

-- the times of the window that ends at `now`
abbrev pub in_window : ℕ → ℕ → ℕ → Bool
in_window window now time = leb time now && leb (now - time) window

module _ (limit_count window_seconds : String → ℤ) where
  -- the decisions of the code, one after the other
  unfoldable pub decide : Buckets → List Attempt → List Bool
  unfolding increment_and_check
  decide buckets [] = []
  decide buckets (a ∷ rest) =
      let (refused, next) =
        increment_and_check a.time a.key (limit_count a.key) (window_seconds a.key) buckets in
      refused ∷ decide next rest

  unfoldable pub window : String → ℕ
  window key = window_of (window_seconds key)

  unfoldable pub refuses : List Attempt → Attempt → Bool
  refuses history a =
      leb (limit_of (limit_count a.key))
        (length (filter (within (window a.key) a.time) (times_of a.key history)))

  -- a limiter that forgets nothing: it refuses if the window before the request holds the limit
  unfoldable pub reference : List Attempt → List Attempt → List Bool
  unfolding refuses window within window_of limit_of
  reference history [] = []
  reference history (a ∷ rest) =
      let refused = refuses history a in
      refused ∷ reference (if refused then history else history ++ a ∷ []) rest

  -- What the buckets remember of the last window is what was let through in it.
  Agree : ℕ → List Attempt → Buckets → Type 0
  Agree now history buckets =
      (key : String)
      → filter (within (window key) now) (entries_of key buckets)
        ≡ filter (within (window key) now) (times_of key history)

  times_of-append :
      (key : String) (h : List Attempt) (a : Attempt)
      → times_of key (h ++ a ∷ [])
        ≡ (if str_eq a.key key then times_of key h ++ a.time ∷ [] else times_of key h)
  times_of-append key [] a = ground arith
  times_of-append key (x ∷ h) a = ground (arith, times_of-append key h a)

  -- Pruning at one time loses nothing at a later one.
  filter-within :
      (w t u : ℕ) (xs : List ℕ)
      → t ≤ u
      → filter (within w u) (filter (within w t) xs) ≡ filter (within w u) xs
  unfolding within
  filter-within w t u [] h = refl
  filter-within w t u (x ∷ xs) h = ground (arith, filter-within w t u xs h)

  Agree-later : (t u : ℕ) (h : List Attempt) (b : Buckets) → t ≤ u → Agree t h b → Agree u h b
  unfolding Agree
  Agree-later t u h b le agree key =
      sym (filter-within (window key) t u (entries_of key b) le)
      ∙ ap (filter (within (window key) u)) (agree key)
      ∙ filter-within (window key) t u (times_of key h) le

  filter-within_idem :
      (w t : ℕ) (xs : List ℕ)
      → filter (within w t) (filter (within w t) xs) ≡ filter (within w t) xs
  filter-within_idem w t xs = filter-within w t t xs (omega arith)

  kept : ℕ → String → Buckets → List ℕ
  kept now key buckets = filter (within (window key) now) (entries_of key buckets)

  module _ (now : ℕ) (key : String) (history : List Attempt) (buckets : Buckets)
      (agree : Agree now history buckets) where
    pruned-Agree : Agree now history (with_entries key (kept now key buckets) buckets)
    unfolding Agree kept
    pruned-Agree j = elim (Bool-cases (str_eq key j)) [
      | inl e ↦
          rw (entries_of-with_entries, e, ← (eq_iff key j).0 e)
            (filter-within_idem (window key) now (entries_of key buckets) ∙ agree key)
      | inr e ↦ rw (entries_of-with_entries, e) (agree j)
    ]

    pushed-Agree :
        Agree now
          (history ++ record { time = now; key = key } ∷ [])
          (with_entries key (kept now key buckets ++ now ∷ []) buckets)
    unfolding Agree kept
    pushed-Agree j = elim (Bool-cases (str_eq key j)) [
      | inl e ↦
          rw
            (
              entries_of-with_entries,
              times_of-append,
              e,
              ← (eq_iff key j).0 e,
              filter-append _ (kept now key buckets),
              filter-append _ (times_of key history),
            )
            (ap (λ l. l ++ filter (within (window key) now) (now ∷ []))
              (filter-within_idem (window key) now (entries_of key buckets) ∙ agree key))
      | inr e ↦ rw (entries_of-with_entries, times_of-append, e) (agree j)
    ]

  module _ (a : Attempt) (history : List Attempt) (buckets : Buckets)
      (agree : Agree a.time history buckets) where
    outcome : Bool × Buckets
    outcome = increment_and_check a.time a.key (limit_count a.key) (window_seconds a.key) buckets

    -- One decision of the code is the reference's.
    outcome-refused : outcome ≡ (
        if refuses history a
        then (true, with_entries a.key (kept a.time a.key buckets) buckets)
        else (false, with_entries a.key (kept a.time a.key buckets ++ a.time ∷ []) buckets))
    unfolding outcome increment_and_check refuses kept window Agree
    outcome-refused = rw (← agree a.key) refl

    outcome-test : outcome.0 ≡ refuses history a
    outcome-test = elim (Bool-cases (refuses history a)) [
      | inl e ↦ rw (outcome-refused, e) refl
      | inr e ↦ rw (outcome-refused, e) refl
    ]

    -- What is remembered still agrees.
    outcome-Agree :
        Agree a.time (if refuses history a then history else history ++ a ∷ []) outcome.1
    outcome-Agree = elim (Bool-cases (refuses history a)) [
      | inl e ↦ rw (outcome-refused, e) (pruned-Agree a.time a.key history buckets agree)
      | inr e ↦ rw (outcome-refused, e) (pushed-Agree a.time a.key history buckets agree)
    ]

  decide-reference_from :
      (last : ℕ) (history : List Attempt) (buckets : Buckets) (calls : List Attempt)
      → Ordered last calls
      → Agree last history buckets
      → decide buckets calls ≡ reference history calls
  unfolding decide reference outcome
  decide-reference_from last history buckets [] o agree = refl
  decide-reference_from last history buckets (a ∷ rest) (le, o) agree =
      let k = Agree-later last a.time history buckets le agree in
      cc (
        outcome-test a history buckets k,
        decide-reference_from a.time (if refuses history a then history else history ++ a ∷ [])
            (outcome a history buckets k).1 rest o (outcome-Agree a history buckets k),
      )

  -- Started with no bucket, the limiter decides every sequence of calls, made at times that do not run backwards, as one that
  -- remembers every request let through and refuses exactly if the window before a request holds its key's limit of them.
  pub decide-reference :
      (calls : List Attempt) → Ordered 0 calls → decide [] calls ≡ reference [] calls
  unfolding Agree entries_of
  decide-reference calls o = decide-reference_from 0 [] [] calls o (λ key. refl)

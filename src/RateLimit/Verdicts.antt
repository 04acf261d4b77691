-- ===== src/RateLimit/Verdicts.antt =====
-- What the middleware's verdict on a request says of the rules and of the buckets.
use mathlib.Core.List.{Memᴰ}
use mathlib.Core.List.Memᴰ
use rust_template.Base.{
  ℕ, String, ◌≤◌, ◌≡◌, ◌≢◌, refl, ap, ◌∙◌, Bool, true, false, Option, none, some, List, [], ◌∷◌,
  ◌++◌, ◌⊎◌, inl, inr, filter, mem-filter_from, length, leb, str_eq, eq_iff, arith, Bool-cases,
}
use rust_template.Base.Int.{ℤ}
use rust_template.Env.{Env}
use rust_template.RateLimit.Buckets.{
  Buckets, entries_of, with_entries, window_of, limit_of, within, increment_and_check,
  entries_of-with_entries,
}
use rust_template.Entities.Limits.{RateLimitRule}
use rust_template.RateLimit.Rules.{rule_matches, key_of, first_limited}

-- A request at `now` was counted under the key.
abbrev pub IsCounted : ℕ → String → Buckets → Type 0
IsCounted now key buckets = Memᴰ now (entries_of key buckets)

mem-append_last : {A : Type 0} (xs : List A) (a : A) → Memᴰ a (xs ++ a ∷ [])
mem-append_last [] a = Memᴰ.head refl
mem-append_last (x ∷ xs) a = Memᴰ.tail (mem-append_last xs a)

mem-append_left : {A : Type 0} {a : A} {xs : List A} (ys : List A) → Memᴰ a xs → Memᴰ a (xs ++ ys)
mem-append_left ys (Memᴰ.head e) = Memᴰ.head e
mem-append_left ys (Memᴰ.tail m) = Memᴰ.tail (mem-append_left ys m)

module _ (now : ℕ) (key : String) (limit_count window_seconds : ℤ) (buckets : Buckets) where
  outcome : Bool × Buckets
  outcome = increment_and_check now key limit_count window_seconds buckets

  kept : List ℕ
  kept = filter (within (window_of window_seconds) now) (entries_of key buckets)

  -- the two ends of the function
  outcome-cases :
      (outcome ≡ (true, with_entries key kept buckets))
      ⊎ (outcome ≡ (false, with_entries key (kept ++ now ∷ []) buckets))
  unfolding outcome kept increment_and_check
  outcome-cases = elim (Bool-cases (leb (limit_of limit_count) (length kept))) [
    | inl e ↦ inl (rw e refl)
    | inr e ↦ inr (rw e refl)
  ]

  passed-IsCounted : outcome.0 ≡ false → IsCounted now key outcome.1
  passed-IsCounted h = elim outcome-cases [
    | inl e ↦ absurd (cc (h, ap (λ o. o.0) e))
    | inr e ↦ rw (e, entries_of-with_entries, (eq_iff key key).1 refl) (mem-append_last kept now)
  ]

  kept-IsCounted : (j : String) → IsCounted now j buckets → IsCounted now j outcome.1
  unfolding within kept
  kept-IsCounted j m = elim (Bool-cases (str_eq key j)) [
    | inl same ↦
        let stays : Memᴰ now kept =
          mem-filter_from (within (window_of window_seconds) now)
            (rw (← (eq_iff key j).0 same) at m) (ground arith) in
        elim outcome-cases [
          | inl e ↦ rw (e, entries_of-with_entries, same) stays
          | inr e ↦ rw (e, entries_of-with_entries, same) (mem-append_left (now ∷ []) stays)
        ]
    | inr other ↦ elim outcome-cases [
      | inl e ↦ rw (e, entries_of-with_entries, other) m
      | inr e ↦ rw (e, entries_of-with_entries, other) m
    ]
  ]

  refused-full : outcome.0 ≡ true → limit_of limit_count ≤ length (entries_of key outcome.1)
  unfolding outcome increment_and_check kept
  refused-full h = elim (Bool-cases (leb (limit_of limit_count) (length kept))) [
    | inl e ↦ rw (e, entries_of-with_entries, (eq_iff key key).1 refl) (ground arith)
    | inr e ↦ absurd (cc (h, e))
  ]

  others_keep : (j : String) → key ≢ j → entries_of j outcome.1 ≡ entries_of j buckets
  others_keep j other = elim outcome-cases [
    | inl e ↦ rw (e, entries_of-with_entries) (ground (arith, other, eq_iff key j))
    | inr e ↦ rw (e, entries_of-with_entries) (ground (arith, other, eq_iff key j))
  ]

module _ (env : Env) (now : ℕ) (ip method path : String) where
  -- a rule for the request whose bucket holds its limit
  pub record Refuses (rule : RateLimitRule) (buckets : Buckets) : Type 0 where
    pub matches : rule_matches rule method path ≡ true
    pub full :
        limit_of rule.limit_count ≤ length (entries_of (key_of env now ip method path rule) buckets)

  -- what the loop's result says of the rules and of the buckets after it
  pub Decides : List RateLimitRule → Option ℕ → Buckets → Type 0
  Decides rules none buckets =
      (rule : RateLimitRule)
      → Memᴰ rule rules
      → rule_matches rule method path ≡ true
      → IsCounted now (key_of env now ip method path rule) buckets
  Decides rules (some id) buckets =
      (rule : RateLimitRule) × Memᴰ rule rules × (rule.id ≡ id) × Refuses rule buckets

  -- The buckets under any other key are as before.
  pub Frame : List RateLimitRule → Buckets → Buckets → Type 0
  Frame rules before after =
      (j : String)
      → ((rule : RateLimitRule)
          → Memᴰ rule rules
          → rule_matches rule method path ≡ true
          → key_of env now ip method path rule ≢ j)
      → entries_of j after ≡ entries_of j before

  -- what holds of a run of the loop, from the buckets `before` to its result
  pub record Loop (rules : List RateLimitRule) (before : Buckets) (result : Option ℕ × Buckets)
      : Type 0 where
    pub decides : Decides rules result.0 result.1
    pub stays : (j : String) → IsCounted now j before → IsCounted now j result.1
    pub frame : Frame rules before result.1

  tried : RateLimitRule → Buckets → Bool × Buckets
  tried rule = outcome now (key_of env now ip method path rule) rule.limit_count rule.window_seconds

  Decides-skip :
      (rule : RateLimitRule) (rules : List RateLimitRule) (result : Option ℕ × Buckets)
      → (rule_matches rule method path ≡ true
          → IsCounted now (key_of env now ip method path rule) result.1)
      → Decides rules result.0 result.1
      → Decides (rule ∷ rules) result.0 result.1
  unfolding Decides
  Decides-skip rule rules (none, buckets) first d =
      λ r k m. elim (Memᴰ.cases_cons k) [ inl e ↦ rw e (first (rw e at m)) | inr i ↦ d r i m ]
  Decides-skip rule rules (some id, buckets) first (r, k, q, full) = (r, Memᴰ.tail k, q, full)

  Loop-skip :
      (rule : RateLimitRule) (rules : List RateLimitRule) (b : Buckets) (x : Option ℕ × Buckets)
      → rule_matches rule method path ≡ false
      → Loop rules b x
      → Loop (rule ∷ rules) b x
  unfolding Frame
  Loop-skip rule rules b x e l = record {
    decides = Decides-skip rule rules x (λ m. absurd (cc (m, e))) l.decides;
    stays = l.stays;
    frame = λ j apart. l.frame j (λ r k. apart r (Memᴰ.tail k));
  }

  Loop-stop :
      (rule : RateLimitRule) (rules : List RateLimitRule) (b : Buckets)
      → rule_matches rule method path ≡ true
      → (tried rule b).0 ≡ true
      → Loop (rule ∷ rules) b (some rule.id, (tried rule b).1)
  unfolding Frame Decides tried
  Loop-stop rule rules b e o = record {
    decides = (
      rule,
      Memᴰ.head refl,
      refl,
      record { matches = e; full = refused-full now _ rule.limit_count rule.window_seconds b o },
    );
    stays = kept-IsCounted now _ rule.limit_count rule.window_seconds b;
    frame = λ j apart.
        others_keep now _ rule.limit_count rule.window_seconds b j (apart rule (Memᴰ.head refl) e);
  }

  Loop-next :
      (rule : RateLimitRule) (rules : List RateLimitRule) (b : Buckets) (x : Option ℕ × Buckets)
      → rule_matches rule method path ≡ true
      → (tried rule b).0 ≡ false
      → Loop rules (tried rule b).1 x
      → Loop (rule ∷ rules) b x
  unfolding Frame tried
  Loop-next rule rules b x e o l = record {
    decides =
        Decides-skip rule rules x
          (λ _. l.stays _ (passed-IsCounted now _ rule.limit_count rule.window_seconds b o))
          l.decides;
    stays = λ j m. l.stays j (kept-IsCounted now _ rule.limit_count rule.window_seconds b j m);
    frame = λ j apart.
        l.frame j (λ r k. apart r (Memᴰ.tail k))
        ∙ others_keep now _ rule.limit_count rule.window_seconds b j
            (apart rule (Memᴰ.head refl) e);
  }

  -- The loop refuses by a rule that matches the request and whose bucket holds its limit, or the
  -- request was counted under every rule that matches it. What was counted stays, and the buckets
  -- under the keys of no matching rule are as before.
  pub first_limited_lem :
      (rules : List RateLimitRule) (b : Buckets)
      → Loop rules b (first_limited env now ip method path rules b)
  unfolding first_limited tried outcome Frame Decides
  first_limited_lem [] b = record {
    decides = λ r m. elim m [ ];
    stays = λ j m. m;
    frame = λ j apart. refl;
  }
  first_limited_lem (rule ∷ rules) b = elim (Bool-cases (rule_matches rule method path)) [
    | inl e ↦ elim (Bool-cases (tried rule b).0) [
      | inl o ↦ rw (e, o) (Loop-stop rule rules b e o)
      | inr o ↦ rw (e, o) (Loop-next rule rules b _ e o (first_limited_lem rules (tried rule b).1))
    ]
    | inr e ↦ rw e (Loop-skip rule rules b _ e (first_limited_lem rules b))
  ]

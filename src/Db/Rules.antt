-- ===== src/Db/Rules.antt =====
-- The rules for the steps of a handler's `do` block.
use rust_template.Base.{◌≡◌, refl, arith, Bool, true, false, if◌then◌else◌}
use rust_template.Api.{ApiError, Result, ok, err, database_error}
use rust_template.Db.Handler.{
  Handler, Ends, RunsIf, Runs-query_if, Runs-lift, Runs-bind, query, lift, ◌>>=◌,
}

-- `m` writes nothing; `P` holds of what it returns and `E` of its errors. `F` holds if a database
-- call fails.
abbrev pub ReadsIf :
    Type 0 → {W A : Type 0} → Handler W A → W → (A → Type 0) → (ApiError → Type 0) → Type 0
ReadsIf F m w P E = RunsIf F m w (λ r w'. (w' ≡ w) × Ends P E r)

abbrev pub Reads : {W A : Type 0} → Handler W A → W → (A → Type 0) → (ApiError → Type 0) → Type 0
Reads m w P E = ReadsIf Unit m w P E

module _ {F W A : Type 0} {w : W} {Q : Result A → W → Type 0} where
  pub Runs-if :
      (b : Bool) (m n : Handler W A)
      → (b ≡ true → RunsIf F m w Q)
      → (b ≡ false → RunsIf F n w Q)
      → RunsIf F (if b then m else n) w Q
  Runs-if true m n t f = t refl
  Runs-if false m n t f = f refl

module _ {F W A B : Type 0} {w : W} {Q : Result B → W → Type 0} where
  -- after a step that only reads
  pub Runs-reads :
      {P : A → Type 0} {E : ApiError → Type 0} {m : Handler W A} (f : A → Handler W B)
      → ReadsIf F m w P E
      → ((a : A) → P a → RunsIf F (f a) w Q)
      → ((e : ApiError) → E e → Q (err e) w)
      → RunsIf F (m >>= f) w Q
  Runs-reads {P} {E} {m} f h good bad =
      Runs-bind (λ r w'. (w' ≡ w) × Ends P E r) m f h (λ a w' p. rw p.0 (good a p.1))
        (λ e w' p. rw p.0 (bad e p.1))

  -- after a check of values at hand
  pub Runs-check :
      (r : Result A) (f : A → Handler W B)
      → ((a : A) → r ≡ ok a → RunsIf F (f a) w Q)
      → ((e : ApiError) → r ≡ err e → Q (err e) w)
      → RunsIf F (lift r >>= f) w Q
  Runs-check (ok a) f good bad =
      Runs-bind (λ q w'. (w' ≡ w) × (q ≡ ok a)) (lift (ok a)) f (Runs-lift (ok a) (refl, refl))
        (λ b w' p. rw p.0 (good b (ground (arith, p.1)))) (λ e w' p. cc (p.1))
  Runs-check (err e) f good bad =
      Runs-bind (λ q w'. (w' ≡ w) × (q ≡ err e)) (lift (err e)) f (Runs-lift (err e) (refl, refl))
        (λ b w' p. absurd (cc (p.1))) (λ d w' p. rw p.0 (bad d (ground (arith, p.1))))

  -- after a query
  pub Runs-bind-query_if :
      (g : W → A) (f : A → Handler W B)
      → RunsIf F (f (g w)) w Q
      → (F → Q (err database_error) w)
      → RunsIf F (query g >>= f) w Q
  Runs-bind-query_if g f good bad =
      Runs-reads {P = λ a. a ≡ g w} {E = λ e. F × (e ≡ database_error)} f
        (Runs-query_if g (refl, refl) (λ k. (refl, (k, refl)))) (λ a e. rw e good)
        (λ d h. rw h.1 (bad h.0))

  pub Runs-bind-query :
      (g : W → A) (f : A → Handler W B)
      → RunsIf F (f (g w)) w Q
      → Q (err database_error) w
      → RunsIf F (query g >>= f) w Q
  Runs-bind-query g f good bad = Runs-bind-query_if g f good (λ _. bad)

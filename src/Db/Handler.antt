-- ===== src/Db/Handler.antt =====
-- The monad of the async handlers. A handler runs over the tables `W` of the database; every
-- database call may fail (`?` on `DbErr`), which the list `faults` decides call by call, and what a
-- handler wrote before an error stays written.
use rust_template.Base.{Bool, true, false, List, [], ◌∷◌}
use rust_template.Api.{ApiError, Result, ok, err, database_error}

pub record Conn (W : Type 0) : Type 0 where
  pub world : W
  pub faults : List Bool

abbrev pub Handler : Type 0 → Type 0 → Type 0
Handler W A = Conn W → Result A × Conn W

-- One database call: it fails and changes nothing, or it answers and leaves the tables changed.
abbrev served : {W A : Type 0} → List Bool → (W → A × W) → W → Result A × Conn W
served [] f w = let (a, w') = f w in (ok a, record { world = w'; faults = [] })
served (true ∷ fs) f w = (err database_error, record { world = w; faults = fs })
served (false ∷ fs) f w = let (a, w') = f w in (ok a, record { world = w'; faults = fs })

module _ {W A : Type 0} where
  -- a call that writes
  unfoldable pub call : (W → A × W) → Handler W A
  call f c = served c.faults f c.world

  -- a call that reads
  unfoldable pub query : (W → A) → Handler W A
  unfolding call
  query f = call (λ w. (f w, w))

  unfoldable pub lift : Result A → Handler W A
  lift r c = (r, c)

  abbrev pub pure : A → Handler W A
  pure a c = (ok a, c)

  abbrev pub raise : ApiError → Handler W A
  raise e c = (err e, c)

  -- a step whose error the handler looks at
  unfoldable pub attempt : Handler W A → Handler W (Result A)
  attempt m c = let (r, c') = m c in (ok r, c')

module _ {W A B : Type 0} where
  abbrev continue : Result A → (A → Handler W B) → Handler W B
  continue (ok a) f c = f a c
  continue (err e) f c = (err e, c)

  infixl 5 ◌>>=◌ ◌>>◌
  unfoldable pub ◌>>=◌ : Handler W A → (A → Handler W B) → Handler W B
  unfolding call query lift
  ◌>>=◌ m f c = let (r, c') = m c in continue r f c'

  abbrev pub ◌>>◌ : Handler W A → Handler W B → Handler W B
  m >> k = m >>= λ _. k

-- What a result says: `P` of its value, or `E` of its error.
abbrev pub Ends {κ} : {A : Type 0} → (A → Type κ) → (ApiError → Type κ) → Result A → Type κ
Ends P E (ok a) = P a
Ends P E (err e) = E e

-- A call of the list fails.
unfoldable pub Faulty : List Bool → Type 0
Faulty [] = ⊥
Faulty (true ∷ fs) = Unit
Faulty (false ∷ fs) = Faulty fs

-- Every run of `m` from the tables `w` ends as `Q` says, where `Q` may use that `F` holds if a
-- database call fails. With `F` the empty type it speaks of the runs in which no call fails.
pub record RunsIf (F : Type 0) {W A : Type 0} (m : Handler W A) (w : W) (Q : Result A → W → Type 0)
    : Type 0 where
  pub ends :
      (fs : List Bool)
      → (Faulty fs → F)
      → Q (m (record { world = w; faults = fs })).0 (m (record { world = w; faults = fs })).1.world
  pub left :
      (fs : List Bool)
      → (Faulty fs → F)
      → Faulty (m (record { world = w; faults = fs })).1.faults
      → F

-- Every run of `m` from the tables `w`, whichever of its calls fail, ends as `Q` says.
abbrev pub Runs : {W A : Type 0} → Handler W A → W → (Result A → W → Type 0) → Type 0
Runs m w Q = RunsIf Unit m w Q

module _ {F W A : Type 0} {w : W} {Q : Result A → W → Type 0} where
  -- the rule for a call, whose error needs that a call fails
  pub Runs-call_if :
      (f : W → A × W)
      → Q (ok (f w).0) (f w).1
      → (F → Q (err database_error) w)
      → RunsIf F (call f) w Q
  unfolding call Faulty
  Runs-call_if f good bad = record { ends = by_cases; left = rest }
    where
      by_cases :
          (fs : List Bool)
          → (Faulty fs → F)
          → Q
              (call f (record { world = w; faults = fs })).0
              (call f (record { world = w; faults = fs })).1.world
      by_cases [] h = good
      by_cases (true ∷ fs) h = bad (h tt)
      by_cases (false ∷ fs) h = good

      rest :
          (fs : List Bool)
          → (Faulty fs → F)
          → Faulty (call f (record { world = w; faults = fs })).1.faults
          → F
      rest [] h k = absurd k
      rest (true ∷ fs) h k = h tt
      rest (false ∷ fs) h k = h k

  pub Runs-call :
      (f : W → A × W) → Q (ok (f w).0) (f w).1 → Q (err database_error) w → RunsIf F (call f) w Q
  Runs-call f good bad = Runs-call_if f good (λ _. bad)

  pub Runs-query_if :
      (f : W → A) → Q (ok (f w)) w → (F → Q (err database_error) w) → RunsIf F (query f) w Q
  unfolding query
  Runs-query_if f good bad = Runs-call_if (λ w. (f w, w)) good bad

  pub Runs-query : (f : W → A) → Q (ok (f w)) w → Q (err database_error) w → RunsIf F (query f) w Q
  Runs-query f good bad = Runs-query_if f good (λ _. bad)

  pub Runs-lift : (r : Result A) → Q r w → RunsIf F (lift r) w Q
  unfolding lift
  Runs-lift r h = record { ends = λ fs k. h; left = λ fs k. k }

  pub Runs-pure : (a : A) → Q (ok a) w → RunsIf F (pure a) w Q
  Runs-pure a h = record { ends = λ fs k. h; left = λ fs k. k }

  pub Runs-raise : (e : ApiError) → Q (err e) w → RunsIf F (raise e) w Q
  Runs-raise e h = record { ends = λ fs k. h; left = λ fs k. k }

  -- a weaker end
  pub Runs-weaken :
      {P : Result A → W → Type 0} {m : Handler W A}
      → RunsIf F m w P
      → ((r : Result A) (w' : W) → P r w' → Q r w')
      → RunsIf F m w Q
  Runs-weaken h f = record { ends = λ fs k. f _ _ (h.ends fs k); left = h.left }

-- `attempt` never fails.
pub Runs-attempt :
    {F W A : Type 0} {w : W} {P : Result (Result A) → W → Type 0} {m : Handler W A}
    → RunsIf F m w (λ r. P (ok r))
    → RunsIf F (attempt m) w P
unfolding attempt
Runs-attempt h = record { ends = h.ends; left = h.left }

module _ {F W A B : Type 0} {Q : Result B → W → Type 0} where
  continue-ends :
      (P : Result A → W → Type 0) (f : A → Handler W B) (r : Result A) (c : Conn W)
      → (Faulty c.faults → F)
      → P r c.world
      → ((a : A) (w' : W) → P (ok a) w' → RunsIf F (f a) w' Q)
      → ((e : ApiError) (w' : W) → P (err e) w' → Q (err e) w')
      → Q (continue r f c).0 (continue r f c).1.world
  continue-ends P f (ok a) c k p good bad = (good a c.world p).ends c.faults k
  continue-ends P f (err e) c k p good bad = bad e c.world p

  continue-left :
      (P : Result A → W → Type 0) (f : A → Handler W B) (r : Result A) (c : Conn W)
      → (Faulty c.faults → F)
      → P r c.world
      → ((a : A) (w' : W) → P (ok a) w' → RunsIf F (f a) w' Q)
      → Faulty (continue r f c).1.faults
      → F
  continue-left P f (ok a) c k p good = (good a c.world p).left c.faults k
  continue-left P f (err e) c k p good = k

  -- the rule for a step of a `do` block
  pub Runs-bind :
      {w : W} (P : Result A → W → Type 0) (m : Handler W A) (f : A → Handler W B)
      → RunsIf F m w P
      → ((a : A) (w' : W) → P (ok a) w' → RunsIf F (f a) w' Q)
      → ((e : ApiError) (w' : W) → P (err e) w' → Q (err e) w')
      → RunsIf F (m >>= f) w Q
  unfolding ◌>>=◌
  Runs-bind {w} P m f hm good bad = record {
    ends = λ fs k.
        let (r, c) = m (record { world = w; faults = fs }) in
        continue-ends P f r c (hm.left fs k) (hm.ends fs k) good bad;
    left = λ fs k.
        let (r, c) = m (record { world = w; faults = fs }) in
        continue-left P f r c (hm.left fs k) (hm.ends fs k) good;
  }

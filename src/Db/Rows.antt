-- ===== src/Db/Rows.antt =====
-- The queries and changes of one table among the tables `W` of the database, and their laws.
use rust_template.Base.{
  ℕ, ◌≡◌, refl, sym, ap, ◌∙◌, ◌≢◌, Bool, true, false, Option, none, some, List, [], ◌∷◌, ◌++◌, map,
  filter, head?, All, arith, ◌==◌, if◌then◌else◌, inl, inr, Bool-cases, ==_refl, mem-filter_to,
  mem-filter_from,
}
use mathlib.Core.Option
use mathlib.Core.List.{Memᴰ}
use rust_template.Api.{Result, ok, err, ok_or, database_error}
use rust_template.Db.Interface.{Database}
use rust_template.Db.Handler.{
  Handler, RunsIf, Runs-call_if, Runs-call, Runs-bind, Runs-lift, call, lift, ◌>>=◌,
}

-- Where a table stands among the others, and its primary key.
pub record Slot (db : Database) (W R : Type 0) : Type 0 where
  pub key : R → ℕ
  pub get : W → db.Table R
  pub put : db.Table R → W → W
  pub get-put : (t : db.Table R) (w : W) → get (put t w) ≡ t

module _ {R : Type 0} where
  by_key : (R → ℕ) → ℕ → List R → Option R
  by_key key id rs = head? (filter (λ r. key r == id) rs)

  by_key-some :
      (key : R → ℕ) (id : ℕ) (rs : List R) (r : R) → by_key key id rs ≡ some r → key r ≡ id
  unfolding by_key
  by_key-some key id [] r h = cc
  by_key-some key id (x ∷ rs) r h = ground (arith, by_key-some key id rs r)

  by_key_new :
      (key : R → ℕ) (id : ℕ) (rs : List R) → All (λ r. key r ≢ id) rs → by_key key id rs ≡ none
  unfolding by_key
  by_key_new key id [] h = refl
  by_key_new key id (x ∷ rs) h = ground (arith, by_key_new key id rs h.1)

  by_key-append_new :
      (key : R → ℕ) (id : ℕ) (x : R) (rs : List R)
      → All (λ r. key r ≢ key x) rs
      → by_key key id (rs ++ x ∷ []) ≡ (if key x == id then some x else by_key key id rs)
  unfolding by_key
  by_key-append_new key id x [] h = ground arith
  by_key-append_new key id x (r ∷ rs) h = ground (arith, by_key-append_new key id x rs h.1)

  by_key-map :
      (key : R → ℕ) (f : R → R) (id j : ℕ) (rs : List R)
      → ((r : R) → key (f r) ≡ key r)
      → by_key key j (map (λ x. if key x == id then f x else x) rs)
        ≡ (if id == j then Option.map f (by_key key j rs) else by_key key j rs)
  unfolding by_key
  by_key-map key f id j [] k = ground arith
  by_key-map key f id j (x ∷ rs) k = ground (arith, k x, by_key-map key f id j rs k)

  mem_of_head : (rs : List R) {r : R} → head? rs ≡ some r → Memᴰ r rs
  mem_of_head [] h = cc
  mem_of_head (x ∷ rs) h = Memᴰ.head (ground arith)

  head_of_mem : {r : R} {rs : List R} → Memᴰ r rs → head? rs ≢ none
  head_of_mem (Memᴰ.head e) h = cc
  head_of_mem (Memᴰ.tail m) h = cc

module _ {db : Database} {W R : Type 0} (s : Slot db W R) where
  -- `Entity::find().filter(c).all(db)`
  unfoldable pub select : (R → Bool) → W → List R
  select c w = db.find R c (s.get w)

  -- `Entity::find().filter(c).one(db)`
  unfoldable pub find_one : (R → Bool) → W → Option R
  unfolding select
  find_one c w = head? (select c w)

  -- `Entity::find_by_id(id).one(db)`
  unfoldable pub row : ℕ → W → Option R
  unfolding find_one
  row id w = find_one (λ r. s.key r == id) w

  -- the tables after `insert(db)` and the row that it returns
  unfoldable pub inserted : (ℕ → R) → W → R × W
  inserted mk w = let t = s.get w in (mk (db.next_id R s.key t), s.put (db.insert R s.key mk t) w)

  unfoldable pub insert : (ℕ → R) → Handler W R
  unfolding inserted call
  insert mk = call (inserted mk)

  -- the tables after `update(db)`
  unfoldable pub updated : ℕ → (R → R) → W → W
  updated id f w = s.put (db.update R s.key id f (s.get w)) w

  -- the row that `update(db)` returns; that no row has the key is a `DbErr`
  unfoldable pub update : ℕ → (R → R) → Handler W R
  unfolding updated row ◌>>=◌
  update id f = do
    found ← call (λ w. let w' = updated id f w in (row id w', w'))
    lift (ok_or found database_error)

  unfoldable pub deleted : (R → Bool) → W → W
  deleted c w = s.put (db.delete_many R c (s.get w)) w

  unfoldable pub delete_many : (R → Bool) → Handler W (Unit {0})
  unfolding deleted call
  delete_many c = call (λ w. (tt, deleted c w))

  -- every row of the table
  unfoldable pub all_rows : W → List R
  all_rows w = db.rows R (s.get w)

  row_lem : (id : ℕ) (w : W) → row id w ≡ by_key s.key id (db.rows R (s.get w))
  unfolding row by_key
  row_lem id w = rw (db.find_rows R (λ r. s.key r == id) (s.get w))

  -- The row that a query by primary key returns has that key.
  pub key-row : (id : ℕ) (w : W) {r : R} → row id w ≡ some r → s.key r ≡ id
  key-row id w {r} h = by_key-some s.key id (db.rows R (s.get w)) r (sym (row_lem id w) ∙ h)

  pub row-key : (id : ℕ) (w : W) {r : R} → row id w ≡ some r → row (s.key r) w ≡ some r
  row-key id w h = ap (λ i. row i w) (key-row id w h) ∙ h

  pub row-updated :
      (id j : ℕ) (f : R → R) (w : W)
      → ((r : R) → s.key (f r) ≡ s.key r)
      → row j (updated id f w) ≡ (if id == j then Option.map f (row j w) else row j w)
  unfolding updated
  row-updated id j f w k =
      rw
        (
          row_lem j (s.put (db.update R s.key id f (s.get w)) w),
          row_lem j w,
          s.get-put,
          db.rows-update,
        )
        (by_key-map s.key f id j (db.rows R (s.get w)) k)

  -- `insert` adds one row, whose key was free, and keeps the others.
  pub row-inserted :
      (mk : ℕ → R) (j : ℕ) (w : W)
      → ((n : ℕ) → s.key (mk n) ≡ n)
      → row j (inserted mk w).1
        ≡ (if s.key (inserted mk w).0 == j then some (inserted mk w).0 else row j w)
  unfolding inserted
  row-inserted mk j w k =
      let n = db.next_id R s.key (s.get w) in
      rw
        (
          row_lem j (s.put (db.insert R s.key mk (s.get w)) w),
          row_lem j w,
          s.get-put,
          db.rows-insert,
        )
        (by_key-append_new s.key j (mk n) (db.rows R (s.get w))
          (rw (k n) (db.next_id_new R s.key (s.get w))))

  -- A query returns exactly the rows that its condition admits.
  pub select_lem : (c : R → Bool) (w : W) → select c w ≡ filter c (all_rows w)
  unfolding select all_rows
  select_lem c w = db.find_rows R c (s.get w)

  pub mem-select_to :
      (c : R → Bool) (w : W) {r : R} → Memᴰ r (select c w) → Memᴰ r (all_rows w) × (c r ≡ true)
  mem-select_to c w m = mem-filter_to c (all_rows w) (rw (select_lem c w) at m)

  pub mem-select_from :
      (c : R → Bool) (w : W) {r : R} → Memᴰ r (all_rows w) → c r ≡ true → Memᴰ r (select c w)
  mem-select_from c w m h = rw (select_lem c w) (mem-filter_from c m h)

  pub find_one-some :
      (c : R → Bool) (w : W) {r : R} → find_one c w ≡ some r → Memᴰ r (all_rows w) × (c r ≡ true)
  unfolding find_one
  find_one-some c w h = mem-select_to c w (mem_of_head (select c w) h)

  pub find_one-none :
      (c : R → Bool) (w : W) {r : R} → find_one c w ≡ none → Memᴰ r (all_rows w) → c r ≡ false
  unfolding find_one
  find_one-none c w {r} h m = elim (Bool-cases (c r)) [
    | inl e ↦ absurd (head_of_mem (mem-select_from c w m e) h)
    | inr e ↦ e
  ]

  pub row-inserted_new :
      (mk : ℕ → R) (w : W) → ((n : ℕ) → s.key (mk n) ≡ n) → row (s.key (inserted mk w).0) w ≡ none
  unfolding inserted
  row-inserted_new mk w k =
      let n = db.next_id R s.key (s.get w) in
      rw (row_lem (s.key (mk n)) w, k n)
        (by_key_new s.key n (db.rows R (s.get w)) (db.next_id_new R s.key (s.get w)))

  pub Runs-delete_many :
      {F : Type 0} {w : W} {P : Result (Unit {0}) → W → Type 0} (c : R → Bool)
      → P (ok tt) (deleted c w)
      → P (err database_error) w
      → RunsIf F (delete_many c) w P
  unfolding delete_many
  Runs-delete_many c good bad = Runs-call (λ v. (tt, deleted c v)) good bad

  module _ {F : Type 0} {w : W} {Q : Result R → W → Type 0} where
    pub Runs-insert_if :
        (mk : ℕ → R)
        → Q (ok (inserted mk w).0) (inserted mk w).1
        → (F → Q (err database_error) w)
        → RunsIf F (insert mk) w Q
    unfolding insert
    Runs-insert_if mk good bad = Runs-call_if (inserted mk) good bad

    pub Runs-insert :
        (mk : ℕ → R)
        → Q (ok (inserted mk w).0) (inserted mk w).1
        → Q (err database_error) w
        → RunsIf F (insert mk) w Q
    Runs-insert mk good bad = Runs-insert_if mk good (λ _. bad)

    -- An update of a row that is there returns the row with the columns set.
    pub Runs-update_if :
        (id : ℕ) (f : R → R) (r : R)
        → ((x : R) → s.key (f x) ≡ s.key x)
        → row id w ≡ some r
        → Q (ok (f r)) (updated id f w)
        → (F → Q (err database_error) w)
        → RunsIf F (update id f) w Q
    unfolding update
    Runs-update_if id f r k h good bad =
        Runs-bind (λ a w'. Found a w') _ (λ o. lift (ok_or o database_error))
          (Runs-call_if _ (rw (row-updated id id f w k, h, ==_refl id) (refl, refl))
            (λ q. (q, refl, refl)))
          (λ a w' p. rw p.0 (rw p.1 (Runs-lift _ good))) (λ e w' p. rw p.1 (rw p.2 (bad p.0)))
      where
        Found : Result (Option R) → W → Type 0
        Found (ok o) w' = (o ≡ some (f r)) × (w' ≡ updated id f w)
        Found (err e) w' = F × (e ≡ database_error) × (w' ≡ w)

    pub Runs-update :
        (id : ℕ) (f : R → R) (r : R)
        → ((x : R) → s.key (f x) ≡ s.key x)
        → row id w ≡ some r
        → Q (ok (f r)) (updated id f w)
        → Q (err database_error) w
        → RunsIf F (update id f) w Q
    Runs-update id f r k h good bad = Runs-update_if id f r k h good (λ _. bad)

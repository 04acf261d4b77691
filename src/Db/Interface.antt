-- ===== src/Db/Interface.antt =====
-- What the code relies on of the tables behind `Entity::find`, `insert`, `update`, `delete_many`.
-- Rows stand in a fixed order, and a new row stands behind the others.
use rust_template.Base.{
  ℕ, ◌≡◌, ◌≢◌, Bool, not, List, [], ◌∷◌, ◌++◌, map, filter, All, ◌==◌, if◌then◌else◌,
}

pub record Database : Type 1 where
  pub Table : Type 0 → Type 0
  -- `Entity::find().all(db)`
  pub rows : (R : Type 0) → Table R → List R
  -- `Entity::find().filter(c).all(db)`
  pub find : (R : Type 0) → (R → Bool) → Table R → List R
  -- the primary key that the next row gets
  pub next_id : (R : Type 0) → (R → ℕ) → Table R → ℕ
  -- `insert(db)`, of a row that takes its primary key from the database
  pub insert : (R : Type 0) → (R → ℕ) → (ℕ → R) → Table R → Table R
  -- `update(db)`: the columns that were `Set`, in the row with the given primary key
  pub update : (R : Type 0) → (R → ℕ) → ℕ → (R → R) → Table R → Table R
  -- `Entity::delete_many().filter(c).exec(db)`
  pub delete_many : (R : Type 0) → (R → Bool) → Table R → Table R
  pub find_rows : (R : Type 0) (c : R → Bool) (t : Table R) → find R c t ≡ filter c (rows R t)
  pub next_id_new :
      (R : Type 0) (key : R → ℕ) (t : Table R) → All (λ r. key r ≢ next_id R key t) (rows R t)
  pub rows-insert :
      (R : Type 0) (key : R → ℕ) (mk : ℕ → R) (t : Table R)
      → rows R (insert R key mk t) ≡ rows R t ++ mk (next_id R key t) ∷ []
  pub rows-update :
      (R : Type 0) (key : R → ℕ) (id : ℕ) (f : R → R) (t : Table R)
      → rows R (update R key id f t) ≡ map (λ x. if key x == id then f x else x) (rows R t)
  pub rows-delete_many :
      (R : Type 0) (c : R → Bool) (t : Table R)
      → rows R (delete_many R c t) ≡ filter (λ r. not (c r)) (rows R t)

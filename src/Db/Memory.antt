-- ===== src/Db/Memory.antt =====
-- Tables as plain lists of rows: what the code relies on can be met, and tests can run.
use Prim.Native.Nat.{max}
use rust_template.Base.{
  ℕ, suc, ◌≤◌, refl, ◌≢◌, not, List, [], ◌∷◌, ◌++◌, map, filter, All, arith, ◌==◌, if◌then◌else◌,
}
use rust_template.Db.Interface.{Database}

abbrev pub next_key : (R : Type 0) → (R → ℕ) → List R → ℕ
next_key R key [] = 1
next_key R key (r ∷ rs) = max (suc (key r)) (next_key R key rs)

next_key_above :
    (R : Type 0) (key : R → ℕ) (n : ℕ) (rs : List R)
    → next_key R key rs ≤ n
    → All (λ r. key r ≢ n) rs
next_key_above R key n [] h = tt
next_key_above R key n (r ∷ rs) h = (omega arith, next_key_above R key n rs (omega arith))

pub next_key_new :
    (R : Type 0) (key : R → ℕ) (rs : List R) → All (λ r. key r ≢ next_key R key rs) rs
next_key_new R key rs = next_key_above R key (next_key R key rs) rs (omega arith)

abbrev pub memory : Database
memory = record {
  Table = List;
  rows = λ R t. t;
  find = λ R c t. filter c t;
  next_id = next_key;
  insert = λ R key mk t. t ++ mk (next_key R key t) ∷ [];
  update = λ R key id f t. map (λ x. if key x == id then f x else x) t;
  delete_many = λ R c t. filter (λ r. not (c r)) t;
  find_rows = λ R c t. refl;
  next_id_new = next_key_new;
  rows-insert = λ R key mk t. refl;
  rows-update = λ R key id f t. refl;
  rows-delete_many = λ R c t. refl;
}

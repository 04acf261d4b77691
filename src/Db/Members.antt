-- ===== src/Db/Members.antt =====
-- The rows of a table after each change of it.
use rust_template.Base.{
  ℕ, ◌≡◌, refl, sym, ap, ◌∙◌, ◌⊎◌, inl, inr, Bool, true, false, not, none, some, List, [], ◌∷◌,
  ◌++◌, filter, arith, ◌==◌, ==_refl, if◌then◌else◌, mem-filter_to, head?,
}
use mathlib.Core.List.{Memᴰ}
use mathlib.Core.List.Memᴰ
use rust_template.Db.Interface.{Database}
use rust_template.Db.Rows.{
  Slot, row, all_rows, inserted, deleted, find_one, select_lem, row-inserted, delete_many,
  Runs-delete_many,
}
use rust_template.Api.{Result, ok, err, database_error}
use rust_template.Db.Handler.{Handler, Runs, Runs-bind, ◌>>=◌}

module _ {R : Type 0} where
  mem-snoc : (rs : List R) (x : R) {r : R} → Memᴰ r (rs ++ x ∷ []) → Memᴰ r rs ⊎ (r ≡ x)
  mem-snoc [] x m = elim (Memᴰ.cases_cons m) [ inl e ↦ inr e | inr k ↦ elim k [ ] ]
  mem-snoc (y ∷ rs) x m = elim (Memᴰ.cases_cons m) [
    | inl e ↦ inl (Memᴰ.head e)
    | inr k ↦ elim (mem-snoc rs x k) [ inl j ↦ inl (Memᴰ.tail j) | inr e ↦ inr e ]
  ]

  filter-none_by_key :
      (key : R → ℕ) (id j : ℕ) (rs : List R)
      → filter (λ r. key r == j) (filter (λ r. not (key r == id)) rs)
        ≡ (if id == j then [] else filter (λ r. key r == j) rs)
  filter-none_by_key key id j [] = ground arith
  filter-none_by_key key id j (r ∷ rs) = ground (arith, filter-none_by_key key id j rs)

module _ {db : Database} {W R : Type 0} (s : Slot db W R) where
  all_rows-inserted :
      (mk : ℕ → R) (w : W)
      → all_rows s (inserted s mk w).1 ≡ all_rows s w ++ (inserted s mk w).0 ∷ []
  unfolding all_rows inserted
  all_rows-inserted mk w = ap (db.rows R) (s.get-put _ w) ∙ db.rows-insert R s.key mk (s.get w)

  all_rows-deleted :
      (c : R → Bool) (w : W) → all_rows s (deleted s c w) ≡ filter (λ r. not (c r)) (all_rows s w)
  unfolding all_rows deleted
  all_rows-deleted c w = ap (db.rows R) (s.get-put _ w) ∙ db.rows-delete_many R c (s.get w)

  row-all_rows : (j : ℕ) (w : W) → row s j w ≡ head? (filter (λ r. s.key r == j) (all_rows s w))
  unfolding row find_one
  row-all_rows j w = ap head? (select_lem s (λ r. s.key r == j) w)

  pub mem-inserted :
      (mk : ℕ → R) (w : W) {r : R}
      → Memᴰ r (all_rows s (inserted s mk w).1)
      → Memᴰ r (all_rows s w) ⊎ (r ≡ (inserted s mk w).0)
  mem-inserted mk w m = mem-snoc (all_rows s w) _ (rw (all_rows-inserted mk w) at m)

  -- an inserted row is listed
  pub mem-inserted_self :
      (mk : ℕ → R) (w : W) → Memᴰ (inserted s mk w).0 (all_rows s (inserted s mk w).1)
  mem-inserted_self mk w =
      rw (all_rows-inserted mk w) (Memᴰ.append_right (all_rows s w) (Memᴰ.head refl))

  pub mem-deleted :
      (c : R → Bool) (w : W) {r : R}
      → Memᴰ r (all_rows s (deleted s c w))
      → Memᴰ r (all_rows s w) × (not (c r) ≡ true)
  mem-deleted c w m = mem-filter_to (λ r. not (c r)) (all_rows s w) (rw (all_rows-deleted c w) at m)

  pub row-deleted :
      (id j : ℕ) (w : W)
      → row s j (deleted s (λ r. s.key r == id) w) ≡ (if id == j then none else row s j w)
  row-deleted id j w =
      row-all_rows j (deleted s (λ r. s.key r == id) w)
      ∙ ap (λ rs. head? (filter (λ r. s.key r == j) rs)) (all_rows-deleted (λ r. s.key r == id) w)
      ∙ ap head? (filter-none_by_key s.key id j (all_rows s w))
      ∙ by_test (id == j)
      ∙ ap (λ o. if id == j then none else o) (sym (row-all_rows j w))
    where
      by_test :
          (b : Bool)
          → head? (if b then [] else filter (λ r. s.key r == j) (all_rows s w))
            ≡ (if b then none else head? (filter (λ r. s.key r == j) (all_rows s w)))
      by_test true = refl
      by_test false = refl

  -- an inserted row is found by its key
  pub row-inserted_self :
      (mk : ℕ → R) (w : W)
      → ((n : ℕ) → s.key (mk n) ≡ n)
      → row s (s.key (inserted s mk w).0) (inserted s mk w).1 ≡ some (inserted s mk w).0
  row-inserted_self mk w k =
      row-inserted s mk (s.key (inserted s mk w).0) w k
      ∙ rw (==_refl (s.key (inserted s mk w).0)) refl

  -- after a deletion
  pub Runs-bind-delete :
      {B : Type 0} {w : W} {Q : Result B → W → Type 0} (c : R → Bool) (f : Unit {0} → Handler W B)
      → Runs (f tt) (deleted s c w) Q
      → Q (err database_error) w
      → Runs (delete_many s c >>= f) w Q
  Runs-bind-delete {B} {w} {Q} c f good bad =
      Runs-bind Ended (delete_many s c) f (Runs-delete_many s c refl (refl, refl))
        (λ u w' e. rw e good) (λ e w' q. rw q.0 (rw q.1 bad))
    where
      Ended : Result (Unit {0}) → W → Type 0
      Ended (ok u) w' = w' ≡ deleted s c w
      Ended (err e) w' = (e ≡ database_error) × (w' ≡ w)

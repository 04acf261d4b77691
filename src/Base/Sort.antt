-- ===== src/Base/Sort.antt =====
-- Sorting (`ORDER BY`, `sort_unstable`) as insertion sort, and `Vec::dedup`; both keep the members.
use mathlib.Core.List.{Memᴰ}
use mathlib.Core.List.Memᴰ
use mathlib.Core.List.{List, [], ◌∷◌}
use mathlib.Core.Path.{◌≡◌, refl}
use mathlib.Core.Logic.{◌⊎◌, inl, inr}
use mathlib.Core.Bool.{Bool}
use rust_template.Base.Tests.{if◌then◌else◌, Bool-cases}

module _ {ℓ} {A : Type ℓ} (le : A → A → Bool) where
  unfoldable pub insert_by : A → List A → List A
  insert_by a [] = a ∷ []
  insert_by a (x ∷ xs) = if le a x then a ∷ x ∷ xs else x ∷ insert_by a xs

  unfoldable pub sort_by : List A → List A
  unfolding insert_by
  sort_by [] = []
  sort_by (x ∷ xs) = insert_by x (sort_by xs)

  insert_by_to : (a : A) (xs : List A) {b : A} → Memᴰ b (insert_by a xs) → (b ≡ a) ⊎ Memᴰ b xs
  unfolding insert_by
  insert_by_to a [] m = elim (Memᴰ.cases_cons m) [ inl e ↦ inl e | inr k ↦ inr k ]
  insert_by_to a (x ∷ xs) m = elim (Bool-cases (le a x)) [
    | inl e ↦ Memᴰ.cases_cons (rw e at m)
    | inr e ↦ elim (Memᴰ.cases_cons (rw e at m)) [
      | inl q ↦ inr (Memᴰ.head q)
      | inr k ↦ elim (insert_by_to a xs k) [ inl q ↦ inl q | inr j ↦ inr (Memᴰ.tail j) ]
    ]
  ]

  insert_by_new : (a : A) (xs : List A) → Memᴰ a (insert_by a xs)
  unfolding insert_by
  insert_by_new a [] = Memᴰ.head refl
  insert_by_new a (x ∷ xs) = elim (Bool-cases (le a x)) [
    | inl e ↦ rw e (Memᴰ.head refl)
    | inr e ↦ rw e (Memᴰ.tail (insert_by_new a xs))
  ]

  insert_by_old : (a : A) {b : A} {xs : List A} → Memᴰ b xs → Memᴰ b (insert_by a xs)
  unfolding insert_by
  insert_by_old a (Memᴰ.head {x} {xs} q) = elim (Bool-cases (le a x)) [
    | inl e ↦ rw e (Memᴰ.tail (Memᴰ.head q))
    | inr e ↦ rw e (Memᴰ.head q)
  ]
  insert_by_old a (Memᴰ.tail {x} {xs} m) = elim (Bool-cases (le a x)) [
    | inl e ↦ rw e (Memᴰ.tail (Memᴰ.tail m))
    | inr e ↦ rw e (Memᴰ.tail (insert_by_old a m))
  ]

  pub mem-sort_by_to : (xs : List A) {b : A} → Memᴰ b (sort_by xs) → Memᴰ b xs
  unfolding sort_by
  mem-sort_by_to [] m = m
  mem-sort_by_to (x ∷ xs) m = elim (insert_by_to x (sort_by xs) m) [
    | inl q ↦ Memᴰ.head q
    | inr k ↦ Memᴰ.tail (mem-sort_by_to xs k)
  ]

  pub mem-sort_by_from : {b : A} {xs : List A} → Memᴰ b xs → Memᴰ b (sort_by xs)
  unfolding sort_by
  mem-sort_by_from (Memᴰ.head {x} {xs} q) = Memᴰ.cast q (insert_by_new x (sort_by xs))
  mem-sort_by_from (Memᴰ.tail {x} {xs} m) = insert_by_old x (mem-sort_by_from m)

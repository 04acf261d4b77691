-- ===== src/Rbac/Ids.antt =====
-- `unique_ids` of src/models/rbac.rs: the ids of a query, sorted and without repetition.
use mathlib.Core.List.{Memᴰ}
use mathlib.Core.List.Memᴰ
use rust_template.Base.{
  ℕ, ◌≤◌, ◌<◌, ◌≡◌, ◌⊎◌, inl, inr, Bool, List, [], ◌∷◌, arith, leb, ◌==◌, any, if◌then◌else◌,
  Bool-cases,
}
use rust_template.Base.Sort.{insert_by, sort_by, mem-sort_by_to, mem-sort_by_from}

-- `Vec::dedup`: an item that repeats the one before it is dropped.
dedup_from : ℕ → List ℕ → List ℕ
dedup_from p [] = []
dedup_from p (x ∷ xs) = if p == x then dedup_from p xs else x ∷ dedup_from x xs

dedup : List ℕ → List ℕ
unfolding dedup_from
dedup [] = []
dedup (x ∷ xs) = x ∷ dedup_from x xs

unfoldable pub unique_ids : List ℕ → List ℕ
unfolding dedup sort_by
unique_ids ids = dedup (sort_by leb ids)

-- `is_in(ids)` in a query
abbrev pub is_in : List ℕ → ℕ → Bool
is_in ids x = any (λ i. i == x) ids

dedup_from_to : (p : ℕ) (xs : List ℕ) {a : ℕ} → Memᴰ a (dedup_from p xs) → Memᴰ a xs
unfolding dedup_from
dedup_from_to p [] m = m
dedup_from_to p (x ∷ xs) m = elim (Bool-cases (p == x)) [
  | inl e ↦ Memᴰ.tail (dedup_from_to p xs (rw e at m))
  | inr e ↦ elim (Memᴰ.cases_cons (rw e at m)) [
    | inl q ↦ Memᴰ.head q
    | inr k ↦ Memᴰ.tail (dedup_from_to x xs k)
  ]
]

-- Nothing is lost but the item that is already there.
dedup_from_from : {a : ℕ} (p : ℕ) {xs : List ℕ} → Memᴰ a xs → (a ≡ p) ⊎ Memᴰ a (dedup_from p xs)
unfolding dedup_from
dedup_from_from p (Memᴰ.head {x} {xs} q) = elim (Bool-cases (p == x)) [
  | inl e ↦ inl (ground arith)
  | inr e ↦ inr (rw e (Memᴰ.head q))
]
dedup_from_from p (Memᴰ.tail {x} {xs} m) = elim (Bool-cases (p == x)) [
  | inl e ↦ rw e (dedup_from_from p m)
  | inr e ↦ inr (rw e (elim (dedup_from_from x m) [ inl q ↦ Memᴰ.head q | inr k ↦ Memᴰ.tail k ]))
]

-- A query's ids are exactly the ids that were collected.
pub mem-unique_ids_to : (ids : List ℕ) {a : ℕ} → Memᴰ a (unique_ids ids) → Memᴰ a ids
unfolding unique_ids
mem-unique_ids_to ids m = mem-sort_by_to leb ids (from (sort_by leb ids) m)
  where
    from : (xs : List ℕ) {a : ℕ} → Memᴰ a (dedup xs) → Memᴰ a xs
    from [] m = m
    from (x ∷ xs) m = elim (Memᴰ.cases_cons m) [
      | inl q ↦ Memᴰ.head q
      | inr k ↦ Memᴰ.tail (dedup_from_to x xs k)
    ]

pub mem-unique_ids_from : {a : ℕ} (ids : List ℕ) → Memᴰ a ids → Memᴰ a (unique_ids ids)
unfolding unique_ids
mem-unique_ids_from ids m = from (mem-sort_by_from leb m)
  where
    from : {a : ℕ} {xs : List ℕ} → Memᴰ a xs → Memᴰ a (dedup xs)
    from (Memᴰ.head q) = Memᴰ.head q
    from (Memᴰ.tail {x} {xs} m) = elim (dedup_from_from x m) [
      | inl q ↦ Memᴰ.head q
      | inr k ↦ Memᴰ.tail k
    ]

-- Each item is above the ones before it.
abbrev pub Above : ℕ → List ℕ → Type 0
Above p [] = Unit
Above p (x ∷ xs) = (p < x) × Above x xs

abbrev pub IsIncreasing : List ℕ → Type 0
IsIncreasing [] = Unit
IsIncreasing (x ∷ xs) = Above x xs

abbrev From : ℕ → List ℕ → Type 0
From p [] = Unit
From p (x ∷ xs) = (p ≤ x) × From x xs

abbrev IsSorted : List ℕ → Type 0
IsSorted [] = Unit
IsSorted (x ∷ xs) = From x xs

insert_by-From : (p a : ℕ) (xs : List ℕ) → p ≤ a → From p xs → From p (insert_by leb a xs)
unfolding insert_by
insert_by-From p a [] h s = (h, tt)
insert_by-From p a (x ∷ xs) h (k, s) = elim (Bool-cases (leb a x)) [
  | inl e ↦ rw e (h, (ground arith, s))
  | inr e ↦ rw e (k, insert_by-From x a xs (ground arith) s)
]

insert_by-IsSorted : (a : ℕ) (xs : List ℕ) → IsSorted xs → IsSorted (insert_by leb a xs)
unfolding insert_by
insert_by-IsSorted a [] s = tt
insert_by-IsSorted a (x ∷ xs) s = elim (Bool-cases (leb a x)) [
  | inl e ↦ rw e (ground arith, s)
  | inr e ↦ rw e (insert_by-From x a xs (ground arith) s)
]

sort_by-IsSorted : (xs : List ℕ) → IsSorted (sort_by leb xs)
unfolding sort_by
sort_by-IsSorted [] = tt
sort_by-IsSorted (x ∷ xs) = insert_by-IsSorted x (sort_by leb xs) (sort_by-IsSorted xs)

From-lower : (p q : ℕ) (xs : List ℕ) → p ≤ q → From q xs → From p xs
From-lower p q [] h s = tt
From-lower p q (x ∷ xs) h (k, s) = (omega arith, s)

dedup_from-Above : (p : ℕ) (xs : List ℕ) → From p xs → Above p (dedup_from p xs)
unfolding dedup_from
dedup_from-Above p [] s = tt
dedup_from-Above p (x ∷ xs) (k, s) = elim (Bool-cases (p == x)) [
  | inl e ↦ rw e (dedup_from-Above p xs (From-lower p x xs k s))
  | inr e ↦ rw e (ground arith, dedup_from-Above x xs s)
]

-- The ids come in strictly increasing order, so none is repeated, and are exactly those collected.
pub unique_ids_lem :
    (ids : List ℕ)
    → IsIncreasing (unique_ids ids)
      × ((a : ℕ) → (Memᴰ a (unique_ids ids) → Memᴰ a ids) × (Memᴰ a ids → Memᴰ a (unique_ids ids)))
unfolding unique_ids
unique_ids_lem ids = (
  increasing (sort_by leb ids) (sort_by-IsSorted ids),
  λ a. (λ m. mem-unique_ids_to ids m, λ m. mem-unique_ids_from ids m),
)
  where
    increasing : (xs : List ℕ) → IsSorted xs → IsIncreasing (dedup xs)
    increasing [] s = tt
    increasing (x ∷ xs) s = dedup_from-Above x xs s

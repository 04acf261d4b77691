-- ===== src/WorkOrders/Life/Transitions.antt =====
-- `validate_transition` in src/controllers/admin/work_orders.rs admits the steps of the life cycle.
use mathlib.Core.List.{Memᴰ}
use rust_template.Base.{
  String, ◌≡◌, refl, ◌⊎◌, inl, inr, ◌↔◌, Bool, true, false, List, [], ◌∷◌, str_eq, eq_iff,
  Bool-cases,
}
use rust_template.Base.Text.{contains}
use rust_template.Api.{ApiError, ok, err, bad_request, >>=-eq-ok, ◌>>=◌, ensure}
use rust_template.WorkOrders.Validate.{statuses, validate_value, allowed_from, validate_transition}
use rust_template.WorkOrders.Life.{Transition}

mem_of_contains : (xs : List String) (v : String) → contains xs v ≡ true → Memᴰ v xs
mem_of_contains [] v h = cc
mem_of_contains (x ∷ xs) v h = elim (Bool-cases (str_eq v x)) [
  | inl e ↦ Memᴰ.head ((eq_iff v x).0 e)
  | inr e ↦ Memᴰ.tail (mem_of_contains xs v (rw e at h))
]

one_of_three : (a b c v : String) → contains (a ∷ b ∷ c ∷ []) v ≡ true → (v ≡ a) ⊎ (v ≡ b) ⊎ (v ≡ c)
one_of_three a b c v h = elim (mem_of_contains (a ∷ b ∷ c ∷ []) v h) [
  | Memᴰ.head e ↦ inl e
  | Memᴰ.tail (Memᴰ.head e) ↦ inr (inl e)
  | Memᴰ.tail (Memᴰ.tail (Memᴰ.head e)) ↦ inr (inr e)
  | Memᴰ.tail (Memᴰ.tail (Memᴰ.tail x)) ↦ elim x [ ]
]

one_of_two : (a b v : String) → contains (a ∷ b ∷ []) v ≡ true → (v ≡ a) ⊎ (v ≡ b)
one_of_two a b v h = elim (mem_of_contains (a ∷ b ∷ []) v h) [
  | Memᴰ.head e ↦ inl e
  | Memᴰ.tail (Memᴰ.head e) ↦ inr e
  | Memᴰ.tail (Memᴰ.tail x) ↦ elim x [ ]
]

-- the targets that are allowed, from a status that is known
admitted :
    (s t a : String)
    → s ≡ a
    → contains (allowed_from s) t ≡ true
    → contains (allowed_from a) t ≡ true
admitted s t a e h = rw e at h

from_active :
    (s t : String)
    → (s ≡ "in_progress") ⊎ (s ≡ "pending") ⊎ (s ≡ "resolved")
    → contains (allowed_from s) t ≡ true
    → Transition s t
unfolding allowed_from
from_active s t (inl e) h = elim (one_of_three _ _ _ t (admitted s t _ e h)) [
  | inl d ↦ Transition.suspended (rw e refl) d
  | inr (inl d) ↦ Transition.resolved (rw e refl) d
  | inr (inr d) ↦ Transition.cancelled (rw e refl) d
]
from_active s t (inr (inl e)) h = elim (one_of_three _ _ _ t (admitted s t _ e h)) [
  | inl d ↦ Transition.started (rw e refl) d
  | inr (inl d) ↦ Transition.resolved (rw e refl) d
  | inr (inr d) ↦ Transition.cancelled (rw e refl) d
]
from_active s t (inr (inr e)) h = elim (one_of_two _ _ t (admitted s t _ e h)) [
  | inl d ↦ Transition.closed e d
  | inr d ↦ Transition.reopened e d
]

from_new :
    (s t : String)
    → (s ≡ "open") ⊎ (s ≡ "assigned")
    → contains (allowed_from s) t ≡ true
    → Transition s t
unfolding allowed_from
from_new s t (inl e) h = elim (one_of_three _ _ _ t (admitted s t _ e h)) [
  | inl d ↦ Transition.assigned e d
  | inr (inl d) ↦ Transition.started (rw e refl) d
  | inr (inr d) ↦ Transition.cancelled (rw e refl) d
]
from_new s t (inr e) h = elim (one_of_three _ _ _ t (admitted s t _ e h)) [
  | inl d ↦ Transition.started (rw e refl) d
  | inr (inl d) ↦ Transition.suspended (rw e refl) d
  | inr (inr d) ↦ Transition.cancelled (rw e refl) d
]

allowed-Transition : (s t : String) → contains (allowed_from s) t ≡ true → Transition s t
unfolding allowed_from
allowed-Transition s t h = elim (Bool-cases (str_eq s "open")) [
  | inl e ↦ from_new s t (inl ((eq_iff s _).0 e)) h
  | inr n1 ↦ elim (Bool-cases (str_eq s "assigned")) [
    | inl e ↦ from_new s t (inr ((eq_iff s _).0 e)) h
    | inr n2 ↦ elim (Bool-cases (str_eq s "in_progress")) [
      | inl e ↦ from_active s t (inl ((eq_iff s _).0 e)) h
      | inr n3 ↦ elim (Bool-cases (str_eq s "pending")) [
        | inl e ↦ from_active s t (inr (inl ((eq_iff s _).0 e))) h
        | inr n4 ↦ elim (Bool-cases (str_eq s "resolved")) [
          | inl e ↦ from_active s t (inr (inr ((eq_iff s _).0 e))) h
          | inr n5 ↦ cc (rw (n1, n2, n3, n4, n5) at h)
        ]
      ]
    ]
  ]
]

accepts :
    (s t a b : String)
    → s ≡ a
    → t ≡ b
    → validate_transition a b ≡ ok tt
    → validate_transition s t ≡ ok tt
accepts s t a b e d h = rw (e, d) h

-- every step is accepted from each status that it starts at
Transition-ok : (s t : String) → Transition s t → validate_transition s t ≡ ok tt
unfolding validate_transition
Transition-ok s t (Transition.assigned e d) = accepts s t _ _ e d refl
Transition-ok s t (Transition.reopened e d) = accepts s t _ _ e d refl
Transition-ok s t (Transition.closed e d) = accepts s t _ _ e d refl
Transition-ok s t (Transition.started c d) =
    elim (mem_of_contains ("open" ∷ "assigned" ∷ "pending" ∷ []) s c) [
      | Memᴰ.head e ↦ accepts s t _ _ e d refl
      | Memᴰ.tail (Memᴰ.head e) ↦ accepts s t _ _ e d refl
      | Memᴰ.tail (Memᴰ.tail (Memᴰ.head e)) ↦ accepts s t _ _ e d refl
      | Memᴰ.tail (Memᴰ.tail (Memᴰ.tail x)) ↦ elim x [ ]
    ]
Transition-ok s t (Transition.suspended c d) =
    elim (mem_of_contains ("assigned" ∷ "in_progress" ∷ []) s c) [
      | Memᴰ.head e ↦ accepts s t _ _ e d refl
      | Memᴰ.tail (Memᴰ.head e) ↦ accepts s t _ _ e d refl
      | Memᴰ.tail (Memᴰ.tail x) ↦ elim x [ ]
    ]
Transition-ok s t (Transition.resolved c d) =
    elim (mem_of_contains ("in_progress" ∷ "pending" ∷ []) s c) [
      | Memᴰ.head e ↦ accepts s t _ _ e d refl
      | Memᴰ.tail (Memᴰ.head e) ↦ accepts s t _ _ e d refl
      | Memᴰ.tail (Memᴰ.tail x) ↦ elim x [ ]
    ]
Transition-ok s t (Transition.cancelled c d) =
    elim (mem_of_contains ("open" ∷ "assigned" ∷ "in_progress" ∷ "pending" ∷ []) s c) [
      | Memᴰ.head e ↦ accepts s t _ _ e d refl
      | Memᴰ.tail (Memᴰ.head e) ↦ accepts s t _ _ e d refl
      | Memᴰ.tail (Memᴰ.tail (Memᴰ.head e)) ↦ accepts s t _ _ e d refl
      | Memᴰ.tail (Memᴰ.tail (Memᴰ.tail (Memᴰ.head e))) ↦ accepts s t _ _ e d refl
      | Memᴰ.tail (Memᴰ.tail (Memᴰ.tail (Memᴰ.tail x))) ↦ elim x [ ]
    ]

if_ok : (e : ApiError) (b : Bool) → ensure b e ≡ ok tt → b ≡ true
if_ok e true h = refl
if_ok e false h = absurd (cc (h))

validate_transition_ok :
    (s t : String) → validate_transition s t ≡ ok tt → contains (allowed_from s) t ≡ true
unfolding validate_transition
validate_transition_ok s t h =
    if_ok _ (contains (allowed_from s) t) (>>=-eq-ok (validate_value t statuses _) _ h).2

kinds :
    (b c : Bool) (e d : ApiError)
    → ((ensure b e >>= λ _. ensure c d) ≡ ok tt)
      ⊎ ((ensure b e >>= λ _. ensure c d) ≡ err e)
      ⊎ ((ensure b e >>= λ _. ensure c d) ≡ err d)
kinds true true e d = inl refl
kinds true false e d = inr (inr refl)
kinds false c e d = inr (inl refl)

-- `validate_transition` accepts a change of status exactly if it is a step of the life cycle. It
-- says of the others that the status or the transition is unsupported.
pub validate_transition_lem :
    (from to : String)
    → (validate_transition from to ≡ ok tt ↔ Transition from to)
      × ((validate_transition from to ≡ ok tt)
          ⊎ (validate_transition from to ≡ err (bad_request "unsupported work order status"))
          ⊎ (validate_transition from to ≡ err (bad_request "unsupported work order transition")))
unfolding validate_transition validate_value
validate_transition_lem from to = (
  (λ h. allowed-Transition from to (validate_transition_ok from to h), Transition-ok from to),
  kinds (contains statuses to) (contains (allowed_from from) to) _ _,
)

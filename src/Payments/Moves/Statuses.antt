-- ===== src/Payments/Moves/Statuses.antt =====
-- The statuses of payment orders and refunds: which of them an order or a refund never leaves.
use rust_template.Base.{
  String, ◌≡◌, refl, sym, ◌∙◌, ◌⊎◌, inl, inr, true, some, [], ◌∷◌, arith, Bool-cases, ◌≢◌, str_eq,
  eq_iff,
}
use rust_template.Base.Text.{contains}
use rust_template.Payments.Moves.{IsSettled, OrderEdge, OrderMoves, RefundEdge, RefundMoves}

pub some_inj : {A : Type 0} {x y : A} → some x ≡ some y → x ≡ y
some_inj e = cc (e)

pub OrderMoves-trans : {m t s : String} → OrderMoves m s → OrderMoves t m → OrderMoves t s
OrderMoves-trans (OrderMoves.stay e) q = rw e q
OrderMoves-trans (OrderMoves.via n e p) q = OrderMoves.via n e (OrderMoves-trans p q)

pub RefundMoves-trans : {m t s : String} → RefundMoves m s → RefundMoves t m → RefundMoves t s
RefundMoves-trans (RefundMoves.stay e) q = rw e q
RefundMoves-trans (RefundMoves.via n e p) q = RefundMoves.via n e (RefundMoves-trans p q)

pub one_order_move : {s t : String} → OrderEdge s t → OrderMoves t s
one_order_move e = OrderMoves.via _ e (OrderMoves.stay refl)

pub one_refund_move : {s t : String} → RefundEdge s t → RefundMoves t s
one_refund_move e = RefundMoves.via _ e (RefundMoves.stay refl)

one_of_two : (a b s : String) → contains (a ∷ b ∷ []) s ≡ true → (s ≡ a) ⊎ (s ≡ b)
one_of_two a b s h = elim (Bool-cases (str_eq s a)) [
  | inl e ↦ inl ((eq_iff s a).0 e)
  | inr e ↦ elim (Bool-cases (str_eq s b)) [
    | inl d ↦ inr ((eq_iff s b).0 d)
    | inr d ↦ absurd (ground arith)
  ]
]

open_not-IsSettled : (s : String) → contains ("pending" ∷ "paying" ∷ []) s ≡ true → ¬ IsSettled s
open_not-IsSettled s c h = elim (one_of_two "pending" "paying" s c) [
  | inl e ↦ cc (rw e at h)
  | inr e ↦ cc (rw e at h)
]

edge-IsSettled : {s t : String} → OrderEdge s t → IsSettled s → IsSettled t
edge-IsSettled {s} (OrderEdge.pay c e) h = rw e refl
edge-IsSettled {s} (OrderEdge.cancel c e) h = absurd (open_not-IsSettled s c h)
edge-IsSettled {s} (OrderEdge.ask_refund c e) h = rw e refl
edge-IsSettled {s} (OrderEdge.refund c e) h = rw e refl

-- An order that was paid stays paid, in refund or refunded.
pub moves-IsSettled : {t s : String} → OrderMoves t s → IsSettled s → IsSettled t
moves-IsSettled (OrderMoves.stay e) h = rw (sym e) h
moves-IsSettled (OrderMoves.via m e p) h = moves-IsSettled p (edge-IsSettled e h)

edge-open : {s t : String} → OrderEdge s t → s ≢ "cancelled"
edge-open (OrderEdge.pay c e) h = cc (rw h at c)
edge-open (OrderEdge.cancel c e) h = cc (rw h at c)
edge-open (OrderEdge.ask_refund c e) h = cc (rw h at c)
edge-open (OrderEdge.refund c e) h = cc (rw h at c)

-- A cancelled order stays cancelled.
pub moves_cancelled : {t s : String} → OrderMoves t s → s ≡ "cancelled" → t ≡ "cancelled"
moves_cancelled (OrderMoves.stay e) h = sym e ∙ h
moves_cancelled (OrderMoves.via m e p) h = absurd (edge-open e h)

RefundEdge-open :
    {s t : String} → RefundEdge s t → ¬ (contains ("rejected" ∷ "succeeded" ∷ []) s ≡ true)
RefundEdge-open {s} (RefundEdge.review e d) h = cc (rw e at h)
RefundEdge-open {s} (RefundEdge.succeed c e) h = elim (one_of_two "approved" "processing" s c) [
  | inl d ↦ cc (rw d at h)
  | inr d ↦ cc (rw d at h)
]

-- A rejected or succeeded refund keeps its status.
pub closed_refund :
    {t s : String} → RefundMoves t s → contains ("rejected" ∷ "succeeded" ∷ []) s ≡ true → t ≡ s
closed_refund (RefundMoves.stay e) h = sym e
closed_refund (RefundMoves.via m e p) h = absurd (RefundEdge-open e h)

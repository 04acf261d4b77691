-- ===== src/Payments/Moves.antt =====
-- The life cycle of payment orders and refunds that the handlers of
-- src/controllers/admin/payments.rs are meant to follow, and what every reachable state keeps.
pub mod Statuses
pub mod Steps
pub mod RefundSteps
pub mod Keeps
pub mod Refunding
pub mod Others
pub mod Paid
pub mod Reach
use rust_template.Base.{ℕ, String, ◌≡◌, refl, ◌≤◌, ◌⊎◌, true, some, List, [], ◌∷◌}
use rust_template.Base.Text.{contains}
use rust_template.Api.{ok}
use rust_template.Db.Interface.{Database}
use rust_template.Db.Rows.{row}
use rust_template.Entities.Payment.{PaymentOrder, PaymentRefund}
use rust_template.World.{World, on_payment_orders, on_payment_refunds}
use rust_template.Payments.Amount.{parse_amount}

-- a status in which money was received
abbrev pub settled_statuses : List String
settled_statuses = "paid" ∷ "refunding" ∷ "refunded" ∷ []

abbrev pub IsSettled : String → Type 0
IsSettled s = contains settled_statuses s ≡ true

-- one action on an order
pub data OrderEdge (s t : String) : Type 0 where
  pay : contains ("pending" ∷ "paying" ∷ []) s ≡ true → t ≡ "paid" → OrderEdge s t
  cancel : contains ("pending" ∷ "paying" ∷ []) s ≡ true → t ≡ "cancelled" → OrderEdge s t
  ask_refund : contains ("paid" ∷ "refunding" ∷ []) s ≡ true → t ≡ "refunding" → OrderEdge s t
  refund : IsSettled s → t ≡ "refunded" → OrderEdge s t

-- any number of actions
pub data OrderMoves (t : String) : String → Type 0 where
  stay : {s : String} → s ≡ t → OrderMoves t s
  via : {s : String} (m : String) → OrderEdge s m → OrderMoves t m → OrderMoves t s

-- one action on a refund
pub data RefundEdge (s t : String) : Type 0 where
  review : s ≡ "pending" → (t ≡ "approved") ⊎ (t ≡ "rejected") → RefundEdge s t
  succeed : contains ("approved" ∷ "processing" ∷ []) s ≡ true → t ≡ "succeeded" → RefundEdge s t

pub data RefundMoves (t : String) : String → Type 0 where
  stay : {s : String} → s ≡ t → RefundMoves t s
  via : {s : String} (m : String) → RefundEdge s m → RefundMoves t m → RefundMoves t s

-- how an order may change: what was charged never does
pub record OrderGrows (o o' : PaymentOrder) : Type 0 where
  pub same_no : o'.order_no ≡ o.order_no
  pub same_amount : o'.amount ≡ o.amount
  pub same_currency : o'.currency ≡ o.currency
  pub same_tenant : o'.tenant_id ≡ o.tenant_id
  pub moves : OrderMoves o'.status o.status

pub record RefundGrows (r r' : PaymentRefund) : Type 0 where
  pub same_no : r'.refund_no ≡ r.refund_no
  pub same_amount : r'.amount ≡ r.amount
  pub same_order : r'.payment_order_id ≡ r.payment_order_id
  pub moves : RefundMoves r'.status r.status

module _ {db : Database} where
  -- the refund's order is stored, was paid, and was charged no less than the refund
  pub record Backed (w : World db) (r : PaymentRefund) : Type 0 where
    pub order : PaymentOrder
    pub stored : row on_payment_orders r.payment_order_id w ≡ some order
    pub settled : IsSettled order.status
    pub refunded : ℕ
    pub charged : ℕ
    pub refund_amount : parse_amount r.amount ≡ ok refunded
    pub order_amount : parse_amount order.amount ≡ ok charged
    pub covered : refunded ≤ charged

  abbrev pub AllBacked : World db → Type 0
  AllBacked w = (id : ℕ) (r : PaymentRefund) → row on_payment_refunds id w ≡ some r → Backed w r

  -- how the tables may change
  pub record Step (w w' : World db) : Type 0 where
    pub orders :
        (id : ℕ) (o : PaymentOrder)
        → row on_payment_orders id w ≡ some o
        → (o' : PaymentOrder) × (row on_payment_orders id w' ≡ some o') × OrderGrows o o'
    pub refunds :
        (id : ℕ) (r : PaymentRefund)
        → row on_payment_refunds id w ≡ some r
        → (r' : PaymentRefund) × (row on_payment_refunds id w' ≡ some r') × RefundGrows r r'
    pub backed : AllBacked w'
    pub permissions : w'.permissions ≡ w.permissions

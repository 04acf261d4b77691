-- ===== src/Payments/Moves/Reach.antt =====
-- The states of the tables that requests to src/controllers/admin/payments.rs lead to, in any
-- order, by any users, at any times and with any database failures.
use rust_template.Base.{ℕ, String, ◌≡◌, refl, inl, inr, Bool, true, List, [], ◌∷◌, some}
use rust_template.Base.Text.{contains}
use rust_template.Db.Interface.{Database}
use rust_template.Db.Handler.{Handler, Runs, Runs-bind, Runs-pure, ◌>>=◌, pure}
use rust_template.Db.Rows.{row, all_rows}
use rust_template.Env.{Env}
use rust_template.Entities.Payment.{PaymentOrder, PaymentRefund}
use rust_template.World.{World, on_payment_orders, on_payment_refunds}
use rust_template.Rbac.Check.{UniqueCodes}
use rust_template.Payments.Params.{
  SavePaymentChannelParams, CreatePaymentOrderParams, CreatePaymentRefundParams,
  MarkPaymentPaidParams,
}
use rust_template.Payments.Channels.{create_channel, update_channel, delete_channel}
use rust_template.Payments.Orders.{create_order, mark_order_paid, cancel_order}
use rust_template.Payments.Refunds.{
  create_refund, approve_refund, reject_refund, mark_refund_succeeded,
}
use rust_template.Payments.Moves.{IsSettled, OrderGrows, RefundGrows, Backed, AllBacked, Step}
use rust_template.Payments.Moves.Statuses.{moves-IsSettled, moves_cancelled, closed_refund}
use rust_template.Payments.Moves.Steps.{Step-refl, Step-trans}
use rust_template.Payments.Moves.Keeps.{mark_order_paid-Step, cancel_order-Step}
use rust_template.Payments.Moves.Refunding.{
  create_refund-Step, review_refund-Step, mark_refund_succeeded-Step,
}
use rust_template.Payments.Moves.Others.{
  create_order-Step, create_channel-Step, update_channel-Step, delete_channel-Step,
}

-- the routes of `routes()` that write
pub data Request : Type 0 where
  post_channel : SavePaymentChannelParams → Request
  put_channel : ℕ → SavePaymentChannelParams → Request
  remove_channel : ℕ → Request
  post_order : CreatePaymentOrderParams → Request
  mark_paid : ℕ → MarkPaymentPaidParams → Request
  cancel : ℕ → Request
  post_refund : ℕ → CreatePaymentRefundParams → Request
  approve : ℕ → Request
  reject : ℕ → Request
  mark_succeeded : ℕ → Request

module _ {db : Database} where
  -- the answer is not part of the state
  abbrev served : {A : Type 0} → Handler (World db) A → Handler (World db) (Unit {0})
  served m = m >>= λ _. pure tt

  unfoldable pub serve : Env → String → Request → Handler (World db) (Unit {0})
  serve env pid (post_channel params) = served (create_channel env pid params)
  serve env pid (put_channel id params) = served (update_channel env pid id params)
  serve env pid (remove_channel id) = served (delete_channel env pid id)
  serve env pid (post_order params) = served (create_order env pid params)
  serve env pid (mark_paid id params) = served (mark_order_paid env pid id params)
  serve env pid (cancel id) = served (cancel_order env pid id)
  serve env pid (post_refund id params) = served (create_refund env pid id params)
  serve env pid (approve id) = served (approve_refund env pid id)
  serve env pid (reject id) = served (reject_refund env pid id)
  serve env pid (mark_succeeded id) = served (mark_refund_succeeded env pid id)

  -- the tables after one request
  unfoldable pub after : Env → String → Request → List Bool → World db → World db
  unfolding serve
  after env pid request faults w =
      (serve env pid request (record { world = w; faults = faults })).1.world

  -- the tables that requests lead to from `w`
  pub data Reach (w : World db) : World db → Type 0 where
    start : Reach w w
    next :
        {v : World db} (env : Env) (pid : String) (request : Request) (faults : List Bool)
        → Reach w v
        → Reach w (after env pid request faults v)

  served-Step :
      {A : Type 0} {w : World db} (m : Handler (World db) A)
      → Runs m w (λ r w'. Step w w')
      → Runs (served m) w (λ r w'. Step w w')
  served-Step {A} {w} m h =
      Runs-bind (λ r w'. Step w w') m _ h (λ a w' s. Runs-pure tt s) (λ e w' s. s)

  serve-Step :
      {w : World db}
      → AllBacked w
      → UniqueCodes w
      → (env : Env) (pid : String) (request : Request)
      → Runs (serve env pid request) w (λ r w'. Step w w')
  unfolding serve approve_refund reject_refund
  serve-Step h u env pid (post_channel params) =
      served-Step _ (create_channel-Step h u env pid params)
  serve-Step h u env pid (put_channel id params) =
      served-Step _ (update_channel-Step h u env pid id params)
  serve-Step h u env pid (remove_channel id) = served-Step _ (delete_channel-Step h u env pid id)
  serve-Step h u env pid (post_order params) = served-Step _ (create_order-Step h u env pid params)
  serve-Step h u env pid (mark_paid id params) =
      served-Step _ (mark_order_paid-Step h u env pid id params)
  serve-Step h u env pid (cancel id) = served-Step _ (cancel_order-Step h u env pid id)
  serve-Step h u env pid (post_refund id params) =
      served-Step _ (create_refund-Step h u env pid id params)
  serve-Step h u env pid (approve id) =
      served-Step _ (review_refund-Step h u env pid id "approved" (inl refl))
  serve-Step h u env pid (reject id) =
      served-Step _ (review_refund-Step h u env pid id "rejected" (inr refl))
  serve-Step h u env pid (mark_succeeded id) =
      served-Step _ (mark_refund_succeeded-Step h u env pid id)

  unique_kept : {w v : World db} → v.permissions ≡ w.permissions → UniqueCodes w → UniqueCodes v
  unfolding all_rows
  unique_kept {w} {v} e u = record { same = λ p q m n. u.same p q (rw e at m) (rw e at n) }

  Reach-all : {w v : World db} → AllBacked w → UniqueCodes w → Reach w v → Step w v
  unfolding after
  Reach-all h u Reach.start = Step-refl h
  Reach-all h u (Reach.next env pid request faults r) =
      let s = Reach-all h u r in
      Step-trans s
        ((serve-Step s.backed (unique_kept s.permissions u) env pid request).ends faults (λ _. tt))

  -- Whatever requests are served, by whom, when and with whichever database calls failing: every
  -- stored refund has a stored order that was paid, is in refund or refunded, and that was charged
  -- no less than the refund's amount. It holds after the requests if it held of every refund before and permission
  -- codes are unique.
  pub Reach-Backed :
      (w v : World db)
      → AllBacked w
      → UniqueCodes w
      → Reach w v
      → (id : ℕ) (r : PaymentRefund) → row on_payment_refunds id v ≡ some r
      → Backed v r
  Reach-Backed w v h u s = (Reach-all h u s).backed

  -- No request removes an order, or changes its number, amount, currency or tenant. Its status
  -- follows the life cycle: pending or paying to paid or cancelled, paid or in refund to in refund,
  -- and these and refunded to refunded. It starts from tables whose refunds are all backed and
  -- whose permission codes are unique.
  pub Reach-order :
      (w v : World db)
      → AllBacked w
      → UniqueCodes w
      → Reach w v
      → (id : ℕ) (o : PaymentOrder) → row on_payment_orders id w ≡ some o
      → (o' : PaymentOrder) × (row on_payment_orders id v ≡ some o') × OrderGrows o o'
  Reach-order w v h u r = (Reach-all h u r).orders

  -- No request removes a refund, or changes its number, amount or order. Its status goes from
  -- pending to approved or rejected, and from approved or processing to succeeded. It starts from
  -- tables whose refunds are all backed and whose permission codes are unique.
  pub Reach-refund :
      (w v : World db)
      → AllBacked w
      → UniqueCodes w
      → Reach w v
      → (id : ℕ) (x : PaymentRefund) → row on_payment_refunds id w ≡ some x
      → (x' : PaymentRefund) × (row on_payment_refunds id v ≡ some x') × RefundGrows x x'
  Reach-refund w v h u r = (Reach-all h u r).refunds

  -- An order that was paid, is in refund or refunded never leaves these statuses, from tables whose
  -- refunds are all backed and whose permission codes are unique.
  pub Reach-IsSettled :
      (w v : World db)
      → AllBacked w
      → UniqueCodes w
      → Reach w v
      → (id : ℕ) (o : PaymentOrder) → row on_payment_orders id w ≡ some o
      → IsSettled o.status
      → (o' : PaymentOrder) × (row on_payment_orders id v ≡ some o') × IsSettled o'.status
  Reach-IsSettled w v h u r id o e settled =
      let (o', e', g) = (Reach-all h u r).orders id o e in (o', e', moves-IsSettled g.moves settled)

  -- A cancelled order stays cancelled, from tables whose refunds are all backed and whose
  -- permission codes are unique.
  pub Reach-cancelled :
      (w v : World db)
      → AllBacked w
      → UniqueCodes w
      → Reach w v
      → (id : ℕ) (o : PaymentOrder) → row on_payment_orders id w ≡ some o
      → o.status ≡ "cancelled"
      → (o' : PaymentOrder) × (row on_payment_orders id v ≡ some o') × (o'.status ≡ "cancelled")
  Reach-cancelled w v h u r id o e c =
      let (o', e', g) = (Reach-all h u r).orders id o e in (o', e', moves_cancelled g.moves c)

  -- A rejected or succeeded refund keeps its status, from tables whose refunds are all backed and
  -- whose permission codes are unique.
  pub Reach-final_refund :
      (w v : World db)
      → AllBacked w
      → UniqueCodes w
      → Reach w v
      → (id : ℕ) (x : PaymentRefund) → row on_payment_refunds id w ≡ some x
      → contains ("rejected" ∷ "succeeded" ∷ []) x.status ≡ true
      → (x' : PaymentRefund) × (row on_payment_refunds id v ≡ some x') × (x'.status ≡ x.status)
  Reach-final_refund w v h u r id x e f =
      let (x', e', g) = (Reach-all h u r).refunds id x e in (x', e', closed_refund g.moves f)

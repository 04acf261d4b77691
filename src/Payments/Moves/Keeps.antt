-- ===== src/Payments/Moves/Keeps.antt =====
-- Every payment handler changes orders and refunds along their life cycle only, whichever of its
-- database calls fail.
use rust_template.Base.{ℕ, String, ◌≡◌, refl, Bool, true, false, not, some, arith}
use rust_template.Api.{database_error}
use rust_template.Db.Interface.{Database}
use rust_template.Db.Handler.{Ends, Runs, Runs-pure, Runs-raise, Runs-bind}
use rust_template.Db.Rules.{Runs-if, Runs-reads}
use rust_template.Db.Rows.{row, update, Runs-insert, Runs-update, row-key}
use rust_template.Env.{Env}
use rust_template.Entities.Access.{User}
use rust_template.Entities.Payment.{PaymentOrder, PaymentRefund}
use rust_template.World.{World, on_payment_orders, on_payment_refunds, on_payment_callbacks}
use rust_template.Rbac.Check.{UniqueCodes, authorize_lem}
use rust_template.Payments.Params.{MarkPaymentPaidParams}
use rust_template.Payments.Visible.Laws.{find_visible_order_lem}
use rust_template.Payments.Orders.{
  paid_order, create_callback_record, mark_order_paid, cancel_order,
}
use rust_template.Payments.Refunds.{reviewed}
use rust_template.Payments.Moves.{OrderEdge, RefundEdge, OrderGrows, RefundGrows, AllBacked, Step}
use rust_template.Payments.Moves.Statuses.{one_order_move, one_refund_move}
use rust_template.Payments.Moves.Steps.{
  Step-refl, Step-trans, update_order-Step, insert_callback-Step,
}
use rust_template.Payments.Moves.RefundSteps.{update_refund-Step}

pub grows :
    (o : PaymentOrder) (t : String) → OrderEdge o.status t → OrderGrows o (record o { status = t })
grows o t e = record {
  same_no = refl;
  same_amount = refl;
  same_currency = refl;
  same_tenant = refl;
  moves = one_order_move e;
}

review_grows :
    (env : Env) (actor : User) (r : PaymentRefund) (t : String)
    → RefundEdge r.status t
    → RefundGrows r (reviewed env actor t r)
unfolding reviewed
review_grows env actor r t e = record {
  same_no = refl;
  same_amount = refl;
  same_order = refl;
  moves = one_refund_move e;
}

reviewed_key :
    (env : Env) (actor : User) (t : String) (r : PaymentRefund) → (reviewed env actor t r).id ≡ r.id
unfolding reviewed
reviewed_key env actor t r = refl

module _ {db : Database} {w : World db} where
  -- setting columns of an order that was read before
  pub set_order :
      {v : World db} (f : PaymentOrder → PaymentOrder) (o : PaymentOrder)
      → Step v w
      → ((x : PaymentOrder) → (f x).id ≡ x.id)
      → row on_payment_orders o.id w ≡ some o
      → OrderGrows o (f o)
      → Runs (update on_payment_orders o.id f) w (λ r w'. Step v w')
  set_order f o s k e g =
      Runs-update on_payment_orders o.id f o k e
        (Step-trans s (update_order-Step o.id f o s.backed k e g)) s

  pub set_refund :
      {v : World db} (env : Env) (actor : User) (r : PaymentRefund) (t : String)
      → Step v w
      → row on_payment_refunds r.id w ≡ some r
      → RefundEdge r.status t
      → Runs
          (update on_payment_refunds r.id (reviewed env actor t))
          w
          (λ q w'. Step v w' × Ends (λ x. x ≡ reviewed env actor t r) (λ e. e ≡ database_error) q)
  set_refund env actor r t s e g =
      Runs-update on_payment_refunds r.id (reviewed env actor t) r (reviewed_key env actor t) e
        (
          Step-trans s (
              update_refund-Step r.id (reviewed env actor t) r s.backed (reviewed_key env actor t) e
                (review_grows env actor r t g)),
          refl,
        )
        (s, refl)

pub not-true : {b : Bool} → not b ≡ false → b ≡ true
not-true h = ground arith

module _ {db : Database} {w : World db} (h : AllBacked w) (unique : UniqueCodes w) (env : Env)
    (pid : String) where
  stays : Step w w
  stays = Step-refl h

  -- `mark_order_paid` moves the order from pending or paying to paid, and nothing else moves.
  pub mark_order_paid-Step :
      (id : ℕ) (params : MarkPaymentPaidParams)
      → Runs (mark_order_paid env pid id params) w (λ r w'. Step w w')
  unfolding mark_order_paid create_callback_record paid_order
  mark_order_paid-Step id params =
      Runs-reads _ (authorize_lem w env.parse_uuid pid "system:payment_order:action" unique)
        (λ actor a.
          Runs-reads _ (find_visible_order_lem w actor id)
            (λ order o.
              Runs-if _ _ _ (λ c. Runs-raise _ stays)
                (λ c.
                  Runs-bind (λ r w'. Step w w') _ _
                    (set_order (paid_order env params _) order stays (λ x. refl)
                      (row-key on_payment_orders id w o.0)
                      (record {
                        same_no = refl;
                        same_amount = refl;
                        same_currency = refl;
                        same_tenant = refl;
                        moves = one_order_move (OrderEdge.pay (not-true c) refl);
                      }))
                    (λ updated w' s.
                      Runs-bind (λ r w'. Step w w') _ _
                        (Runs-insert on_payment_callbacks _
                          (Step-trans s (insert_callback-Step _ s.backed)) s)
                        (λ x w' s. Runs-pure _ s) (λ e w' s. s))
                    (λ e w' s. s)))
            (λ e q. stays))
        (λ e q. stays)

  pub cancel_order-Step : (id : ℕ) → Runs (cancel_order env pid id) w (λ r w'. Step w w')
  unfolding cancel_order
  cancel_order-Step id =
      Runs-reads _ (authorize_lem w env.parse_uuid pid "system:payment_order:action" unique)
        (λ actor a.
          Runs-reads _ (find_visible_order_lem w actor id)
            (λ order o.
              Runs-if _ _ _ (λ c. Runs-raise _ stays)
                (λ c.
                  Runs-bind (λ r w'. Step w w') _ _
                    (set_order (λ x. record x { status = "cancelled" }) order stays (λ x. refl)
                      (row-key on_payment_orders id w o.0)
                      (grows order "cancelled" (OrderEdge.cancel (not-true c) refl)))
                    (λ a w' s. Runs-pure _ s) (λ e w' s. s)))
            (λ e q. stays))
        (λ e q. stays)

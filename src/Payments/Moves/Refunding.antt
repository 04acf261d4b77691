-- ===== src/Payments/Moves/Refunding.antt =====
-- The refund handlers of src/controllers/admin/payments.rs change orders and refunds along their
-- life cycle only, and every refund that they store is backed by its order.
use rust_template.Base.{
  ℕ, String, ◌≡◌, refl, sym, ◌∙◌, ◌⊎◌, true, false, some, [], ◌∷◌, ltb, eq_iff, arith,
}
use rust_template.Base.Text.{contains}
use rust_template.Api.{Result, ok, err, ok_or-eq-ok, database_error}
use rust_template.Db.Interface.{Database}
use rust_template.Db.Handler.{
  Ends, Runs, Runs-weaken, Runs-pure, Runs-raise, Runs-bind, pure, ◌>>=◌,
}
use rust_template.Db.Rules.{Runs-if, Runs-reads, Runs-check, Runs-bind-query}
use rust_template.Db.Rows.{row, inserted, insert, update, Runs-insert, row-key}
use rust_template.Env.{Env}
use rust_template.Entities.Access.{User}
use rust_template.Entities.Payment.{PaymentOrder, PaymentRefund}
use rust_template.World.{World, on_payment_orders, on_payment_refunds}
use rust_template.Rbac.Check.{UniqueCodes, authorize_lem}
use rust_template.Payments.Amount.{parse_amount, normalize_amount}
use rust_template.Payments.Amount.RoundTrip.{parse_amount-normalize_amount}
use rust_template.Payments.Params.{CreatePaymentRefundParams}
use rust_template.Payments.Records.Events.{refund_record}
use rust_template.Payments.Visible.Laws.{find_visible_order_lem, find_visible_refund_lem}
use rust_template.Payments.Refunds.{
  new_refund, reviewed, create_refund, review_refund, mark_refund_succeeded,
}
use rust_template.Payments.Moves.{IsSettled, OrderEdge, RefundEdge, Backed, AllBacked, Step}
use rust_template.Payments.Moves.Statuses.{some_inj}
use rust_template.Payments.Moves.Steps.{Step-refl, Backed-grows}
use rust_template.Payments.Moves.RefundSteps.{orders_frame_new, insert_refund-Step}
use rust_template.Payments.Moves.Keeps.{grows, not-true, set_order, set_refund}

new_refund_key :
    (env : Env) (actor : User) (order : PaymentOrder) (params : CreatePaymentRefundParams)
    (amount : String) (n : ℕ)
    → (new_refund env actor order params amount n).id ≡ n
unfolding new_refund
new_refund_key env actor order params amount n = refl

Backed-order :
    {db : Database} {w : World db} (r : PaymentRefund) (o : PaymentOrder)
    → Backed w r
    → row on_payment_orders r.payment_order_id w ≡ some o
    → IsSettled o.status
Backed-order r o b e = rw (some_inj (sym b.stored ∙ e)) at b.settled

module _ {db : Database} {w : World db} (h : AllBacked w) (unique : UniqueCodes w) (env : Env)
    (pid : String) where
  stays : Step w w
  stays = Step-refl h

  still-Backed :
      (env : Env) (actor : User) (refund : PaymentRefund)
      → Backed w refund
      → (q : Result PaymentRefund) (w' : World db)
      → Step w w'
        × Ends (λ x. x ≡ reviewed env actor "succeeded" refund) (λ e. e ≡ database_error) q
      → Step w w' × Ends (λ x. Backed w' x) (λ e. Unit) q
  unfolding reviewed
  still-Backed env actor refund b (ok x) w' s = (
    s.0,
    rw s.1 (
        Backed-grows refund (reviewed env actor "succeeded" refund)
          (s.0.orders refund.payment_order_id) refl refl b),
  )
  still-Backed env actor refund b (err e) w' s = (s.0, tt)

  pub review_refund-Step :
      (id : ℕ) (status : String)
      → (status ≡ "approved") ⊎ (status ≡ "rejected")
      → Runs (review_refund env pid id status) w (λ r w'. Step w w')
  unfolding review_refund
  review_refund-Step id status d =
      Runs-check _ _
        (λ u v.
          Runs-reads _ (authorize_lem w env.parse_uuid pid "system:payment_refund:review" unique)
            (λ actor a.
              Runs-reads _ (find_visible_refund_lem w actor id)
                (λ refund r.
                  Runs-if _ _ _ (λ c. Runs-raise _ stays)
                    (λ c.
                      Runs-bind (λ q w'. Step w w') _ _
                        (Runs-weaken
                          (set_refund env actor refund status stays
                            (row-key on_payment_refunds id w r.0)
                            (RefundEdge.review ((eq_iff refund.status "pending").0 (not-true c)) d))
                          (λ q w' s. s.0))
                        (λ x w' s. Runs-pure _ s) (λ e w' s. s)))
                (λ e q. stays))
            (λ e q. stays))
        (λ e q. stays)

  new-Backed :
      (actor : User) (order : PaymentOrder) (params : CreatePaymentRefundParams) (amount : String)
      {refunded charged : ℕ}
      → row on_payment_orders order.id w ≡ some order
      → contains ("paid" ∷ "refunding" ∷ []) order.status ≡ true
      → parse_amount params.amount ≡ ok refunded
      → parse_amount order.amount ≡ ok charged
      → ltb charged refunded ≡ false
      → normalize_amount params.amount ≡ ok amount
      → Backed w (inserted on_payment_refunds (new_refund env actor order params amount) w).0
  unfolding inserted new_refund
  new-Backed actor order params amount {refunded} {charged} e c p q l n =
      let (cents, before, after) = parse_amount-normalize_amount params.amount amount n in
      record {
        order = order;
        stored = e;
        settled = ground arith;
        refunded = refunded;
        charged = charged;
        refund_amount = after ∙ sym before ∙ p;
        order_amount = q;
        covered = ground arith;
      }

  adds :
      (actor : User) (order : PaymentOrder) (params : CreatePaymentRefundParams) (amount : String)
      {refunded charged : ℕ}
      → row on_payment_orders order.id w ≡ some order
      → contains ("paid" ∷ "refunding" ∷ []) order.status ≡ true
      → parse_amount params.amount ≡ ok refunded
      → parse_amount order.amount ≡ ok charged
      → ltb charged refunded ≡ false
      → normalize_amount params.amount ≡ ok amount
      → Runs
          (insert on_payment_refunds (new_refund env actor order params amount) >>= λ refund.
            update on_payment_orders order.id (λ o. record o { status = "refunding" }) >>= λ _.
            pure (refund_record env refund))
          w
          (λ r w'. Step w w')
  adds actor order params amount {refunded} {charged} e c p q l n =
      let mk = new_refund env actor order params amount in
      Runs-bind
        (λ r w'.
          Step w w' × Ends (λ _. row on_payment_orders order.id w' ≡ some order) (λ e. Unit) r)
        _ _
        (Runs-insert on_payment_refunds mk
          (
            insert_refund-Step mk h (new_refund_key env actor order params amount)
                (new-Backed actor order params amount e c p q l n),
            orders_frame_new w mk order.id ∙ e,
          )
          (stays, tt))
        (λ refund w' s.
          Runs-bind (λ q w'. Step w w') _ _
            (set_order (λ x. record x { status = "refunding" }) order s.0 (λ x. refl) s.1
              (grows order "refunding" (OrderEdge.ask_refund c refl)))
            (λ x v t. Runs-pure _ t) (λ e v t. t))
        (λ e w' s. s.0)

  -- A refund that `create_refund` adds is backed: the order was paid, and the amount that is stored
  -- is the amount that was compared with the order's.
  pub create_refund-Step :
      (id : ℕ) (params : CreatePaymentRefundParams)
      → Runs (create_refund env pid id params) w (λ r w'. Step w w')
  unfolding create_refund
  create_refund-Step id params =
      Runs-reads _ (authorize_lem w env.parse_uuid pid "system:payment_refund:create" unique)
        (λ actor a.
          Runs-reads _ (find_visible_order_lem w actor id)
            (λ order o.
              Runs-if _ _ _ (λ c. Runs-raise _ stays)
                (λ c.
                  Runs-check _ _
                    (λ refunded p.
                      Runs-check _ _
                        (λ charged q.
                          Runs-if _ _ _ (λ l. Runs-raise _ stays)
                            (λ l.
                              Runs-check _ _
                                (λ u m.
                                  Runs-check _ _
                                    (λ amount n.
                                      adds actor order params amount
                                        (row-key on_payment_orders id w o.0) (not-true c) p q l n)
                                    (λ e f. stays))
                                (λ e f. stays)))
                        (λ e f. stays))
                    (λ e f. stays)))
            (λ e q. stays))
        (λ e q. stays)

  pub mark_refund_succeeded-Step :
      (id : ℕ) → Runs (mark_refund_succeeded env pid id) w (λ r w'. Step w w')
  unfolding mark_refund_succeeded
  mark_refund_succeeded-Step id =
      Runs-reads _ (authorize_lem w env.parse_uuid pid "system:payment_refund:review" unique)
        (λ actor a.
          Runs-reads _ (find_visible_refund_lem w actor id)
            (λ refund r.
              Runs-if _ _ _ (λ c. Runs-raise _ stays)
                (λ c.
                  Runs-bind (λ q w'. Step w w' × Ends (λ x. Backed w' x) (λ e. Unit) q) _ _
                    (Runs-weaken
                      (set_refund env actor refund "succeeded" stays
                        (row-key on_payment_refunds id w r.0)
                        (RefundEdge.succeed (not-true c) refl))
                      (still-Backed env actor refund (h id refund r.0)))
                    (λ saved w' s.
                      Runs-bind-query _ _
                        (Runs-check _ _
                          (λ order f.
                            Runs-bind (λ q w'. Step w w') _ _
                              (set_order (λ x. record x { status = "refunded" }) order s.0
                                (λ x. refl)
                                (row-key on_payment_orders saved.payment_order_id w'
                                  (ok_or-eq-ok _ _ f))
                                (grows order "refunded" (
                                  OrderEdge.refund
                                    (Backed-order saved order s.1 (ok_or-eq-ok _ _ f)) refl)))
                              (λ x v t. Runs-pure _ t) (λ e v t. t))
                          (λ e f. s.0))
                        s.0)
                    (λ e w' s. s.0)))
            (λ e q. stays))
        (λ e q. stays)

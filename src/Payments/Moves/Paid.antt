-- ===== src/Payments/Moves/Paid.antt =====
-- What `mark_order_paid` of src/controllers/admin/payments.rs has done when it answers.
use mathlib.Core.List.{Memᴰ}
use rust_template.Base.{
  ℕ, String, ◌≡◌, refl, ap, ◌∙◌, ◌⊎◌, inl, inr, Bool, true, false, Option, none, some, sym, [], ◌∷◌,
  not, ==_iff, unwrap_or, arith,
}
use rust_template.Base.Text.{contains}
use rust_template.Db.Interface.{Database}
use rust_template.Db.Members.{mem-inserted_self}
use rust_template.Payments.Moves.Statuses.{some_inj}
use rust_template.Db.Handler.{Ends, RunsIf, Runs-pure, Runs-raise, Runs-bind}
use rust_template.Db.Rules.{Runs-if, Runs-reads}
use rust_template.Db.Rows.{
  row, find_one, select, inserted, updated, all_rows, Runs-insert_if, Runs-update, row-updated,
  row-key, key-row,
}
use rust_template.Env.{Env}
use rust_template.Entities.Access.{User}
use rust_template.Entities.Payment.{PaymentOrder, PaymentCallback}
use rust_template.World.{World, on_payment_orders, on_payment_callbacks}
use rust_template.Rbac.Check.{UniqueCodes, IsNamed, authorize_lem}
use rust_template.Rbac.Grants.{Grants}
use rust_template.Rbac.Visible.{CanSee}
use rust_template.Payments.Params.{MarkPaymentPaidParams}
use rust_template.Payments.Records.{PaymentOrderRecord, order_record}
use rust_template.Payments.Validate.{trim_optional, next_no}
use rust_template.Payments.Visible.{order_is_visible}
use rust_template.Payments.Visible.Laws.{find_visible_order_lem}
use rust_template.Payments.Orders.{paid_order, create_callback_record, mark_order_paid}

paid_key :
    (env : Env) (params : MarkPaymentPaidParams) (t : String) (o : PaymentOrder)
    → (paid_order env params t o).id ≡ o.id
unfolding paid_order
paid_key env params t o = refl

not-false : {b : Bool} → not b ≡ false → b ≡ true
not-false h = ground arith

module _ (env : Env) (params : MarkPaymentPaidParams) where
  -- the trade number that is given, or a new one
  pub record IsTradeNo (trade_no : String) : Type 0 where
    pub given : (t : String) → trim_optional params.trade_no ≡ some t → trade_no ≡ t
    pub generated : trim_optional params.trade_no ≡ none → trade_no ≡ next_no env "TRADE"

  -- what marking an order as paid makes of its row
  pub record IsPaid (order stored : PaymentOrder) (trade_no : String) : Type 0 where
    pub status : stored.status ≡ "paid"
    pub paid_at : stored.paid_at ≡ some env.now
    pub numbered : IsTradeNo trade_no
    pub trade : stored.trade_no ≡ some trade_no
    pub payer : (p : String) → params.payer_id ≡ some p → stored.payer_id ≡ trim_optional (some p)
    pub same_payer : params.payer_id ≡ none → stored.payer_id ≡ order.payer_id
    pub same_id : stored.id ≡ order.id
    pub same_no : stored.order_no ≡ order.order_no
    pub same_amount : stored.amount ≡ order.amount
    pub same_currency : stored.currency ≡ order.currency
    pub same_tenant : stored.tenant_id ≡ order.tenant_id
    pub same_creator : stored.created_by ≡ order.created_by

  trade_no_of : (o : Option String) → String
  trade_no_of o = unwrap_or o (next_no env "TRADE")

  IsTradeNo-trade_no_of :
      (o : Option String) → trim_optional params.trade_no ≡ o → IsTradeNo (trade_no_of o)
  unfolding trade_no_of
  IsTradeNo-trade_no_of none e = record { given = λ t h. absurd (cc (e, h)); generated = λ _. refl }
  IsTradeNo-trade_no_of (some s) e = record {
    given = λ t h. some_inj (sym e ∙ h);
    generated = λ h. absurd (cc (e, h));
  }

  paid_order-IsPaid :
      (order : PaymentOrder)
      → let t = trade_no_of (trim_optional params.trade_no) in
        IsPaid order (paid_order env params t order) t
  unfolding paid_order
  paid_order-IsPaid order = record {
    status = refl;
    paid_at = refl;
    numbered = IsTradeNo-trade_no_of (trim_optional params.trade_no) refl;
    trade = refl;
    payer = λ p e. rw e refl;
    same_payer = λ e. rw e refl;
    same_id = refl;
    same_no = refl;
    same_amount = refl;
    same_currency = refl;
    same_tenant = refl;
    same_creator = refl;
  }

module _ (F : Type 0) {db : Database} (w : World db) (env : Env) (pid : String) (id : ℕ)
    (params : MarkPaymentPaidParams) where
  -- a stored callback of the order
  pub record IsCallback (t : String) (c : PaymentCallback) : Type 0 where
    pub of_order : c.payment_order_id ≡ some id
    pub trade : c.trade_no ≡ some t
    pub verified : c.verified ≡ true
    pub processed : c.processed ≡ true

  -- who acted, on which order, and what is stored and answered
  pub record Paid (w' : World db) (answer : PaymentOrderRecord) : Type 0 where
    pub actor : User
    pub order : PaymentOrder
    pub paid : PaymentOrder
    pub trade_no : String
    pub callback : PaymentCallback
    pub named : IsNamed w env.parse_uuid pid actor
    pub granted : Grants w actor.id "system:payment_order:action"
    pub visible : CanSee w on_payment_orders actor (order_is_visible actor) order
    pub before : row on_payment_orders id w ≡ some order
    pub was_open : contains ("pending" ∷ "paying" ∷ []) order.status ≡ true
    pub stored : row on_payment_orders id w' ≡ some paid
    pub is_paid : IsPaid env params order paid trade_no
    pub answered : answer ≡ order_record env paid
    pub listed : Memᴰ callback (all_rows on_payment_callbacks w')
    pub is_callback : IsCallback trade_no callback

  -- when it fails, the order is as it was, or stored as paid already and a call has failed
  abbrev pub PaidOrNot : World db → Type 0
  PaidOrNot w' =
      (row on_payment_orders id w' ≡ row on_payment_orders id w)
      ⊎ ((order paid : PaymentOrder) × (t : String) × F
          × (row on_payment_orders id w ≡ some order)
          × (row on_payment_orders id w' ≡ some paid)
          × IsPaid env params order paid t)

  after_callback :
      (v : World db) (mk : ℕ → PaymentCallback)
      → row on_payment_orders id (inserted on_payment_callbacks mk v).1 ≡ row on_payment_orders id v
  unfolding row find_one select inserted
  after_callback v mk = refl

  paid_stored :
      (t : String) (o : PaymentOrder)
      → row on_payment_orders id w ≡ some o
      → row on_payment_orders id (updated on_payment_orders o.id (paid_order env params t) w)
        ≡ some (paid_order env params t o)
  paid_stored t o e =
      row-updated on_payment_orders o.id id (paid_order env params t) w (paid_key env params t)
      ∙ rw ((==_iff o.id id).1 (key-row on_payment_orders id w e), e) refl

  of_order :
      (t : String) {o : PaymentOrder} (x : PaymentOrder)
      → x ≡ paid_order env params t o
      → row on_payment_orders id w ≡ some o
      → some x.id ≡ some id
  of_order t {o} x e stored =
      ap some (ap (λ y. y.id) e ∙ paid_key env params t o ∙ key-row on_payment_orders id w stored)

  -- If permission codes are unique, `mark_order_paid` answers only if the user that the claims name
  -- was granted the action and may see the order, and the order was pending or paying. Then the
  -- order is stored with the status paid, the time, and the given trade number or a new one, with
  -- the payer if one is given, and with the number, amount, currency, tenant and creator it had. The
  -- answer shows what is stored, and a verified and processed callback with the order and the trade
  -- number is stored. When it fails, the order is as it was, or stored as paid while a call failed.
  pub mark_order_paid_lem :
      UniqueCodes w
      → RunsIf F
          (mark_order_paid env pid id params)
          w
          (λ r w'. Ends (Paid w') (λ e. PaidOrNot w') r)
  unfolding mark_order_paid create_callback_record trade_no_of inserted
  mark_order_paid_lem unique =
      Runs-reads _ (authorize_lem w env.parse_uuid pid "system:payment_order:action" unique)
        (λ actor a.
          Runs-reads _ (find_visible_order_lem w actor id)
            (λ order o.
              Runs-if _ _ _ (λ c. Runs-raise _ (inl refl))
                (λ c.
                  let t = unwrap_or (trim_optional params.trade_no) (next_no env "TRADE") in
                  Runs-bind
                    (λ r v.
                      Ends
                        (λ x.
                          (x ≡ paid_order env params t order)
                          × (row on_payment_orders id v ≡ some (paid_order env params t order)))
                        (λ e. PaidOrNot v) r)
                    _ _
                    (Runs-update on_payment_orders order.id (paid_order env params t) order
                      (paid_key env params t) (row-key on_payment_orders id w o.0)
                      (refl, paid_stored t order o.0) (inl refl))
                    (λ x v s.
                      Runs-bind
                        (λ r u.
                          Ends
                            (λ c.
                              (row on_payment_orders id u ≡ some (paid_order env params t order))
                              × Memᴰ c (all_rows on_payment_callbacks u)
                              × IsCallback t c)
                            (λ e. PaidOrNot u) r)
                        _ _
                        (Runs-insert_if on_payment_callbacks _
                          (
                            after_callback v _ ∙ s.1,
                            mem-inserted_self on_payment_callbacks _ v,
                            record {
                              of_order = of_order t x s.0 o.0;
                              trade = refl;
                              verified = refl;
                              processed = refl;
                            },
                          )
                          (λ k. inr (
                            order,
                            paid_order env params t order,
                            t,
                            k,
                            o.0,
                            s.1,
                            paid_order-IsPaid env params order,
                          )))
                        (λ y u q. Runs-pure _ (record {
                          actor = actor;
                          order = order;
                          paid = paid_order env params t order;
                          trade_no = t;
                          callback = y;
                          named = a.0;
                          granted = a.1;
                          visible = o.1;
                          before = o.0;
                          was_open = not-false c;
                          stored = q.0;
                          is_paid = paid_order-IsPaid env params order;
                          answered = ap (order_record env) s.0;
                          listed = q.1;
                          is_callback = q.2;
                        }))
                        (λ e u q. q))
                    (λ e v s. s)))
            (λ e q. inl refl))
        (λ e q. inl refl)

-- ===== src/Payments/Moves/RefundSteps.antt =====
-- Writing a row of a refund is a step of the life cycle of payments.
use rust_template.Base.{
  ℕ, ◌≡◌, refl, sym, ◌∙◌, inl, inr, true, some, ◌==◌, arith, Bool-cases, Option-cases, ==_iff,
}
use rust_template.Db.Interface.{Database}
use rust_template.Db.Rows.{
  row, inserted, updated, row-updated, row-inserted, row-inserted_new, select, find_one,
}
use rust_template.Entities.Payment.{PaymentRefund}
use rust_template.World.{World, on_payment_orders, on_payment_refunds}
use rust_template.Payments.Moves.{RefundGrows, Backed, AllBacked, Step}
use rust_template.Payments.Moves.Statuses.{some_inj}
use rust_template.Payments.Moves.Steps.{OrderGrows-refl, RefundGrows-refl, Backed-grows}

module _ {db : Database} where
  pub orders_frame :
      (w : World db) (id : ℕ) (f : PaymentRefund → PaymentRefund) (j : ℕ)
      → row on_payment_orders j (updated on_payment_refunds id f w) ≡ row on_payment_orders j w
  unfolding row find_one select updated
  orders_frame w id f j = refl

  pub orders_frame_new :
      (w : World db) (mk : ℕ → PaymentRefund) (j : ℕ)
      → row on_payment_orders j (inserted on_payment_refunds mk w).1 ≡ row on_payment_orders j w
  unfolding row find_one select inserted
  orders_frame_new w mk j = refl

  -- setting columns of one refund that may change is a step
  pub update_refund-Step :
      {w : World db} (id : ℕ) (f : PaymentRefund → PaymentRefund) (r : PaymentRefund)
      → AllBacked w
      → ((x : PaymentRefund) → (f x).id ≡ x.id)
      → row on_payment_refunds id w ≡ some r
      → RefundGrows r (f r)
      → Step w (updated on_payment_refunds id f w)
  unfolding updated
  update_refund-Step {w} id f r h k stored g = record {
    permissions = refl;
    orders = λ j o e. (o, orders_frame w id f j ∙ e, OrderGrows-refl o);
    refunds = grow;
    backed = back;
  }
    where
      same_row :
          (j : ℕ) (x : PaymentRefund) → id == j ≡ true → row on_payment_refunds j w ≡ some x → r ≡ x
      same_row j x d e = ground (arith, rw ((==_iff id j).0 d) at stored, e)

      grow :
          (j : ℕ) (x : PaymentRefund)
          → row on_payment_refunds j w ≡ some x
          → (r' : PaymentRefund) × (row on_payment_refunds j (updated on_payment_refunds id f w)
              ≡ some r')
            × RefundGrows x r'
      grow j x e = elim (Bool-cases (id == j)) [
        | inl d ↦
            let same = same_row j x d e in
            (
              f r,
              rw (row-updated on_payment_refunds id j f w k, d, e, sym same) refl,
              rw (sym same) g,
            )
        | inr d ↦ (x, rw (row-updated on_payment_refunds id j f w k, d, e) refl, RefundGrows-refl x)
      ]

      keep :
          (x y : PaymentRefund)
          → RefundGrows x y
          → Backed w x
          → Backed (updated on_payment_refunds id f w) y
      keep x y q b =
          Backed-grows x y
            (λ o e. (o, orders_frame w id f x.payment_order_id ∙ e, OrderGrows-refl o))
            q.same_amount q.same_order b

      back : AllBacked (updated on_payment_refunds id f w)
      back j y e = elim (Option-cases (row on_payment_refunds j w)) [
        | inl n ↦ absurd (ground (arith, rw (row-updated on_payment_refunds id j f w k, n) at e))
        | inr (x, n) ↦
            let (y', e', q) = grow j x n in keep x y (rw (some_inj (sym e' ∙ e)) at q) (h j x n)
      ]

  -- adding a refund that is backed is a step
  pub insert_refund-Step :
      {w : World db} (mk : ℕ → PaymentRefund)
      → AllBacked w
      → ((n : ℕ) → (mk n).id ≡ n)
      → Backed w (inserted on_payment_refunds mk w).0
      → Step w (inserted on_payment_refunds mk w).1
  unfolding inserted
  insert_refund-Step {w} mk h k b = record {
    permissions = refl;
    orders = λ j o e. (o, orders_frame_new w mk j ∙ e, OrderGrows-refl o);
    refunds = grow;
    backed = back;
  }
    where
      grow :
          (j : ℕ) (x : PaymentRefund)
          → row on_payment_refunds j w ≡ some x
          → (r' : PaymentRefund) × (row on_payment_refunds j (inserted on_payment_refunds mk w).1
              ≡ some r')
            × RefundGrows x r'
      grow j x e = elim (Bool-cases ((inserted on_payment_refunds mk w).0.id == j)) [
        | inl d ↦
            let new = row-inserted_new on_payment_refunds mk w k in
            absurd (cc (rw ((==_iff _ j).0 d) at new, e))
        | inr d ↦ (x, rw (row-inserted on_payment_refunds mk j w k, d, e) refl, RefundGrows-refl x)
      ]

      keep : (x : PaymentRefund) → Backed w x → Backed (inserted on_payment_refunds mk w).1 x
      keep x c =
          Backed-grows x x
            (λ o e. (o, orders_frame_new w mk x.payment_order_id ∙ e, OrderGrows-refl o)) refl refl
            c

      back : AllBacked (inserted on_payment_refunds mk w).1
      back j y e = elim (Bool-cases ((inserted on_payment_refunds mk w).0.id == j)) [
        | inl d ↦
            keep y (rw (some_inj (rw (row-inserted on_payment_refunds mk j w k, d) at e)) at b)
        | inr d ↦ keep y (h j y (rw (row-inserted on_payment_refunds mk j w k, d) at e))
      ]

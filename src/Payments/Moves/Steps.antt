-- ===== src/Payments/Moves/Steps.antt =====
-- The changes of the tables of which the payment handlers consist are steps of the life cycle.
use rust_template.Base.{
  ℕ, ◌≡◌, refl, sym, ◌∙◌, inl, inr, Bool, some, ◌==◌, arith, Bool-cases, ==_iff,
}
use rust_template.Db.Interface.{Database}
use rust_template.Db.Rows.{
  row, inserted, updated, deleted, row-updated, row-inserted, row-inserted_new, select, find_one,
}
use rust_template.Entities.Payment.{PaymentChannel, PaymentOrder, PaymentCallback, PaymentRefund}
use rust_template.World.{
  World, on_payment_orders, on_payment_refunds, on_payment_callbacks, on_payment_channels,
}
use rust_template.Payments.Moves.{
  OrderMoves, RefundMoves, OrderGrows, RefundGrows, Backed, AllBacked, Step,
}
use rust_template.Payments.Moves.Statuses.{OrderMoves-trans, RefundMoves-trans, moves-IsSettled}

pub OrderGrows-refl : (o : PaymentOrder) → OrderGrows o o
OrderGrows-refl o = record {
  same_no = refl;
  same_amount = refl;
  same_currency = refl;
  same_tenant = refl;
  moves = OrderMoves.stay refl;
}

pub RefundGrows-refl : (r : PaymentRefund) → RefundGrows r r
RefundGrows-refl r = record {
  same_no = refl;
  same_amount = refl;
  same_order = refl;
  moves = RefundMoves.stay refl;
}

module _ {db : Database} where
  -- a refund stays backed while its order grows
  pub Backed-grows :
      {w w' : World db} (r r' : PaymentRefund)
      → ((o : PaymentOrder)
          → row on_payment_orders r.payment_order_id w ≡ some o
          → (o' : PaymentOrder) × (row on_payment_orders r.payment_order_id w' ≡ some o')
            × OrderGrows o o')
      → r'.amount ≡ r.amount
      → r'.payment_order_id ≡ r.payment_order_id
      → Backed w r
      → Backed w' r'
  Backed-grows r r' grow same_amount same_order b =
      let (o', stored, g) = grow b.order b.stored in
      record {
        order = o';
        stored = rw same_order stored;
        settled = moves-IsSettled g.moves b.settled;
        refunded = b.refunded;
        charged = b.charged;
        refund_amount = rw same_amount b.refund_amount;
        order_amount = rw g.same_amount b.order_amount;
        covered = b.covered;
      }

  pub Step-refl : {w : World db} → AllBacked w → Step w w
  Step-refl h = record {
    orders = λ id o e. (o, e, OrderGrows-refl o);
    refunds = λ id r e. (r, e, RefundGrows-refl r);
    backed = h;
    permissions = refl;
  }

  pub Step-trans : {w v u : World db} → Step w v → Step v u → Step w u
  Step-trans p q = record {
    orders = λ id o e.
        let (o', e', g) = p.orders id o e in
        let (o'', e'', h) = q.orders id o' e' in
        (
          o'',
          e'',
          record {
            same_no = h.same_no ∙ g.same_no;
            same_amount = h.same_amount ∙ g.same_amount;
            same_currency = h.same_currency ∙ g.same_currency;
            same_tenant = h.same_tenant ∙ g.same_tenant;
            moves = OrderMoves-trans g.moves h.moves;
          },
        );
    refunds = λ id r e.
        let (r', e', g) = p.refunds id r e in
        let (r'', e'', h) = q.refunds id r' e' in
        (
          r'',
          e'',
          record {
            same_no = h.same_no ∙ g.same_no;
            same_amount = h.same_amount ∙ g.same_amount;
            same_order = h.same_order ∙ g.same_order;
            moves = RefundMoves-trans g.moves h.moves;
          },
        );
    backed = q.backed;
    permissions = q.permissions ∙ p.permissions;
  }

  -- a change under which the rows of refunds are the same and those of orders grow
  orders-Step :
      {w w' : World db}
      → ((id : ℕ) → row on_payment_refunds id w' ≡ row on_payment_refunds id w)
      → ((id : ℕ) (o : PaymentOrder)
          → row on_payment_orders id w ≡ some o
          → (o' : PaymentOrder) × (row on_payment_orders id w' ≡ some o') × OrderGrows o o')
      → w'.permissions ≡ w.permissions
      → AllBacked w
      → Step w w'
  orders-Step same grow same_permissions h = record {
    permissions = same_permissions;
    orders = grow;
    refunds = λ id r e. (r, same id ∙ e, RefundGrows-refl r);
    backed =
        λ id r e. Backed-grows r r (grow r.payment_order_id) refl refl (h id r (sym (same id) ∙ e));
  }

  pub refunds_frame :
      (w : World db) (id : ℕ) (f : PaymentOrder → PaymentOrder) (j : ℕ)
      → row on_payment_refunds j (updated on_payment_orders id f w) ≡ row on_payment_refunds j w
  unfolding row find_one select updated
  refunds_frame w id f j = refl

  pub refunds_frame_new :
      (w : World db) (mk : ℕ → PaymentOrder) (j : ℕ)
      → row on_payment_refunds j (inserted on_payment_orders mk w).1 ≡ row on_payment_refunds j w
  unfolding row find_one select inserted
  refunds_frame_new w mk j = refl

  -- setting columns of one order that may change is a step
  pub update_order-Step :
      {w : World db} (id : ℕ) (f : PaymentOrder → PaymentOrder) (o : PaymentOrder)
      → AllBacked w
      → ((x : PaymentOrder) → (f x).id ≡ x.id)
      → row on_payment_orders id w ≡ some o
      → OrderGrows o (f o)
      → Step w (updated on_payment_orders id f w)
  unfolding updated
  update_order-Step {w} id f o h k stored g = orders-Step (refunds_frame w id f) grow refl h
    where
      grow :
          (j : ℕ) (x : PaymentOrder)
          → row on_payment_orders j w ≡ some x
          → (o' : PaymentOrder) × (row on_payment_orders j (updated on_payment_orders id f w)
              ≡ some o')
            × OrderGrows x o'
      grow j x e = elim (Bool-cases (id == j)) [
        | inl d ↦
            let same : o ≡ x = ground (arith, rw ((==_iff id j).0 d) at stored, e) in
            (
              f o,
              rw (row-updated on_payment_orders id j f w k, d, e, sym same) refl,
              rw (sym same) g,
            )
        | inr d ↦ (x, rw (row-updated on_payment_orders id j f w k, d, e) refl, OrderGrows-refl x)
      ]

  pub insert_order-Step :
      {w : World db} (mk : ℕ → PaymentOrder)
      → AllBacked w
      → ((n : ℕ) → (mk n).id ≡ n)
      → Step w (inserted on_payment_orders mk w).1
  unfolding inserted
  insert_order-Step {w} mk h k = orders-Step (refunds_frame_new w mk) grow refl h
    where
      grow :
          (j : ℕ) (x : PaymentOrder)
          → row on_payment_orders j w ≡ some x
          → (o' : PaymentOrder) × (row on_payment_orders j (inserted on_payment_orders mk w).1
              ≡ some o')
            × OrderGrows x o'
      grow j x e = elim (Bool-cases ((inserted on_payment_orders mk w).0.id == j)) [
        | inl d ↦
            let new = row-inserted_new on_payment_orders mk w k in
            absurd (cc (rw ((==_iff _ j).0 d) at new, e))
        | inr d ↦ (x, rw (row-inserted on_payment_orders mk j w k, d, e) refl, OrderGrows-refl x)
      ]

  -- callbacks and channels are other tables
  pub insert_callback-Step :
      {w : World db} (mk : ℕ → PaymentCallback)
      → AllBacked w
      → Step w (inserted on_payment_callbacks mk w).1
  unfolding row find_one select inserted
  insert_callback-Step mk h = orders-Step (λ j. refl) (λ j x e. (x, e, OrderGrows-refl x)) refl h

  pub insert_channel-Step :
      {w : World db} (mk : ℕ → PaymentChannel)
      → AllBacked w
      → Step w (inserted on_payment_channels mk w).1
  unfolding row find_one select inserted
  insert_channel-Step mk h = orders-Step (λ j. refl) (λ j x e. (x, e, OrderGrows-refl x)) refl h

  pub set_channel-Step :
      {w : World db} (id : ℕ) (f : PaymentChannel → PaymentChannel)
      → AllBacked w
      → Step w (updated on_payment_channels id f w)
  unfolding row find_one select updated
  set_channel-Step id f h = orders-Step (λ j. refl) (λ j x e. (x, e, OrderGrows-refl x)) refl h

  pub delete_channels-Step :
      {w : World db} (c : PaymentChannel → Bool)
      → AllBacked w
      → Step w (deleted on_payment_channels c w)
  unfolding row find_one select deleted
  delete_channels-Step c h = orders-Step (λ j. refl) (λ j x e. (x, e, OrderGrows-refl x)) refl h

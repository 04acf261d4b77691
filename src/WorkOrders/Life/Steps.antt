-- ===== src/WorkOrders/Life/Steps.antt =====
-- The changes of the tables of which the work order handlers consist.
use rust_template.Base.{
  ℕ, String, ◌≡◌, refl, sym, ◌∙◌, inl, inr, some, ◌==◌, arith, Bool-cases, ==_iff,
}
use rust_template.Db.Interface.{Database}
use rust_template.Db.Rows.{
  row, all_rows, inserted, updated, row-updated, row-inserted, row-inserted_new,
}
use rust_template.Entities.Orders.{WorkOrder}
use rust_template.World.{
  World, on_work_orders, on_work_order_comments, on_work_order_assignments,
  on_work_order_attachments,
}
use rust_template.WorkOrders.Life.{
  Change, kept, moved_to, filled, assigned_anew, Allowed, WorkMoves, WorkGrows, IsStored, Intact,
  WorkStep,
}

same_moves : (k : Change) {s t u : String} → t ≡ s → WorkMoves k t u → WorkMoves k s u
same_moves k e q = rw e at q

Allowed-trans : (k : Change) {s t u : String} → Allowed k s t → WorkMoves k t u → WorkMoves k s u
unfolding Allowed
Allowed-trans kept a q = absurd a
Allowed-trans (moved_to m) a (inl e) = inr (a.0, e ∙ a.1)
Allowed-trans (moved_to m) a (inr b) = inr (a.0, b.1)
Allowed-trans filled a (inl e) = inr (a.0, e ∙ a.1)
Allowed-trans filled a (inr b) = inr (a.0, b.1)
Allowed-trans assigned_anew a (inl e) = inr (e ∙ a)
Allowed-trans assigned_anew a (inr b) = inr b

WorkMoves-trans :
    (k : Change) {s t u : String} → WorkMoves k s t → WorkMoves k t u → WorkMoves k s u
WorkMoves-trans k (inl e) q = same_moves k e q
WorkMoves-trans k (inr a) q = Allowed-trans k a q

pub WorkGrows-refl : {k : Change} (o : WorkOrder) → WorkGrows k o o
WorkGrows-refl o = record {
  same_no = refl;
  same_tenant = refl;
  same_creator = refl;
  moves = inl refl;
}

WorkGrows-trans :
    {k : Change} (o p q : WorkOrder) → WorkGrows k o p → WorkGrows k p q → WorkGrows k o q
WorkGrows-trans {k} o p q g h = record {
  same_no = h.same_no ∙ g.same_no;
  same_tenant = h.same_tenant ∙ g.same_tenant;
  same_creator = h.same_creator ∙ g.same_creator;
  moves = WorkMoves-trans k g.moves h.moves;
}

module _ {db : Database} where
  -- every order that is stored stays stored, and grows
  abbrev OrdersGrow : Change → World db → World db → Type 0
  OrdersGrow k w w' =
      (id : ℕ) (o : WorkOrder)
      → row on_work_orders id w ≡ some o
      → (o' : WorkOrder) × (row on_work_orders id w' ≡ some o') × WorkGrows k o o'

  pub WorkStep-refl : {k : Change} {w : World db} → Intact w → WorkStep k w w
  WorkStep-refl h = record {
    orders = λ id o e. (o, e, WorkGrows-refl o);
    intact = h;
    permissions = refl;
  }

  pub WorkStep-trans :
      {k : Change} {w v u : World db} → WorkStep k w v → WorkStep k v u → WorkStep k w u
  WorkStep-trans p q = record {
    orders = λ id o e.
        let (o', e', g) = p.orders id o e in
        let (o'', e'', h) = q.orders id o' e' in (o'', e'', WorkGrows-trans o o' o'' g h);
    intact = q.intact;
    permissions = q.permissions ∙ p.permissions;
  }

  -- the children stay intact while the orders grow and the children are the same
  orders_change :
      {k : Change} {w w' : World db}
      → all_rows on_work_order_comments w' ≡ all_rows on_work_order_comments w
      → all_rows on_work_order_assignments w' ≡ all_rows on_work_order_assignments w
      → all_rows on_work_order_attachments w' ≡ all_rows on_work_order_attachments w
      → w'.permissions ≡ w.permissions
      → OrdersGrow k w w'
      → Intact w
      → WorkStep k w w'
  orders_change {w = w} {w' = w'} c a t same_permissions grow h = record {
    orders = grow;
    permissions = same_permissions;
    intact = record {
      comments = λ x m. kept _ (h.comments x (rw c at m));
      assignments = λ x m. kept _ (h.assignments x (rw a at m));
      attachments = λ x m. kept _ (h.attachments x (rw t at m));
      once = λ x y m n. h.once x y (rw t at m) (rw t at n);
    };
  }
    where
      kept : (id : ℕ) → IsStored w id → IsStored w' id
      kept id (o, e) = let (o', e', g) = grow id o e in (o', e')

  pub update_work_order_step :
      {k : Change} {w : World db} (id : ℕ) (f : WorkOrder → WorkOrder) (o : WorkOrder)
      → Intact w
      → ((x : WorkOrder) → (f x).id ≡ x.id)
      → row on_work_orders id w ≡ some o
      → WorkGrows k o (f o)
      → WorkStep k w (updated on_work_orders id f w)
  unfolding updated all_rows
  update_work_order_step {k} {w} id f o h same_key stored g =
      orders_change refl refl refl refl grow h
    where
      grow : OrdersGrow k w (updated on_work_orders id f w)
      grow j x e = elim (Bool-cases (id == j)) [
        | inl d ↦
            let same : o ≡ x = ground (arith, rw ((==_iff id j).0 d) at stored, e) in
            (
              f o,
              rw (row-updated on_work_orders id j f w same_key, d, e, sym same) refl,
              rw (sym same) g,
            )
        | inr d ↦
            (x, rw (row-updated on_work_orders id j f w same_key, d, e) refl, WorkGrows-refl x)
      ]

  pub insert_work_order_step :
      {k : Change} {w : World db} (mk : ℕ → WorkOrder)
      → Intact w
      → ((n : ℕ) → (mk n).id ≡ n)
      → WorkStep k w (inserted on_work_orders mk w).1
  unfolding inserted all_rows
  insert_work_order_step {k} {w} mk h same_key = orders_change refl refl refl refl grow h
    where
      grow : OrdersGrow k w (inserted on_work_orders mk w).1
      grow j x e = elim (Bool-cases ((inserted on_work_orders mk w).0.id == j)) [
        | inl d ↦
            let new = row-inserted_new on_work_orders mk w same_key in
            absurd (cc (rw ((==_iff _ j).0 d) at new, e))
        | inr d ↦ (x, rw (row-inserted on_work_orders mk j w same_key, d, e) refl, WorkGrows-refl x)
      ]

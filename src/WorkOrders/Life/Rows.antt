-- ===== src/WorkOrders/Life/Rows.antt =====
-- The changes of the comments, assignments and attachments of work orders, and the end of an order.
use mathlib.Core.List.{Memᴰ}
use rust_template.Base.{ℕ, ◌≡◌, ◌≢◌, refl, sym, ap, ◌∙◌, ◌⊎◌, inl, inr, Bool, ◌==◌, arith}
use rust_template.Db.Interface.{Database}
use rust_template.Db.Rows.{row, all_rows, inserted, deleted, select, find_one}
use rust_template.Db.Members.{mem-inserted, mem-deleted, row-deleted}
use rust_template.Entities.Orders.{WorkOrderComment, WorkOrderAssignment, WorkOrderAttachment}
use rust_template.World.{
  World, on_work_orders, on_work_order_comments, on_work_order_assignments,
  on_work_order_attachments,
}
use rust_template.WorkOrders.Life.{Change, IsStored, Intact, WorkStep}
use rust_template.WorkOrders.Life.Steps.{WorkGrows-refl}

module _ {db : Database} where
  -- the children of stored orders change, and the orders do not
  children_change :
      {k : Change} {w w' : World db}
      → ((id : ℕ) → row on_work_orders id w' ≡ row on_work_orders id w)
      → w'.permissions ≡ w.permissions
      → ((c : WorkOrderComment)
          → Memᴰ c (all_rows on_work_order_comments w')
          → Memᴰ c (all_rows on_work_order_comments w) ⊎ IsStored w c.work_order_id)
      → ((a : WorkOrderAssignment)
          → Memᴰ a (all_rows on_work_order_assignments w')
          → Memᴰ a (all_rows on_work_order_assignments w) ⊎ IsStored w a.work_order_id)
      → ((a : WorkOrderAttachment)
          → Memᴰ a (all_rows on_work_order_attachments w')
          → Memᴰ a (all_rows on_work_order_attachments w) ⊎ IsStored w a.work_order_id)
      → ((a b : WorkOrderAttachment)
          → Memᴰ a (all_rows on_work_order_attachments w')
          → Memᴰ b (all_rows on_work_order_attachments w')
          → a.work_order_id ≡ b.work_order_id
          → a.upload_file_id ≡ b.upload_file_id
          → a ≡ b)
      → Intact w
      → WorkStep k w w'
  children_change {w = w} {w' = w'} frame same_permissions c a t once h = record {
    orders = λ id o e. (o, frame id ∙ e, WorkGrows-refl o);
    permissions = same_permissions;
    intact = record {
      comments = λ x m. still _ (or_stored (h.comments x) (c x m));
      assignments = λ x m. still _ (or_stored (h.assignments x) (a x m));
      attachments = λ x m. still _ (or_stored (h.attachments x) (t x m));
      once = once;
    };
  }
    where
      still : (id : ℕ) → IsStored w id → IsStored w' id
      still id (o, e) = (o, frame id ∙ e)

      or_stored : {M S : Type 0} → (M → S) → M ⊎ S → S
      or_stored f (inl m) = f m
      or_stored f (inr s) = s

  -- a row of the table after an insertion belongs to an order that is stored, if the new one does
  old_or_IsStored :
      {R M : Type 0} (w : World db) (of : R → ℕ) (c x : R)
      → IsStored w (of x)
      → M ⊎ (c ≡ x)
      → M ⊎ IsStored w (of c)
  old_or_IsStored w of c x s (inl m) = inl m
  old_or_IsStored w of c x s (inr e) = inr (rw e s)

  pub insert_comment_step :
      {k : Change} {w : World db} (mk : ℕ → WorkOrderComment)
      → Intact w
      → IsStored w (inserted on_work_order_comments mk w).0.work_order_id
      → WorkStep k w (inserted on_work_order_comments mk w).1
  unfolding row find_one select inserted all_rows
  insert_comment_step {w = w} mk h s =
      children_change (λ id. refl) refl
        (λ c m.
          old_or_IsStored w (λ x. x.work_order_id) c _ s
            (mem-inserted on_work_order_comments mk w m))
        (λ a m. inl m) (λ a m. inl m) h.once h

  pub insert_assignment_step :
      {k : Change} {w : World db} (mk : ℕ → WorkOrderAssignment)
      → Intact w
      → IsStored w (inserted on_work_order_assignments mk w).0.work_order_id
      → WorkStep k w (inserted on_work_order_assignments mk w).1
  unfolding row find_one select inserted all_rows
  insert_assignment_step {w = w} mk h s =
      children_change (λ id. refl) refl (λ c m. inl m)
        (λ a m.
          old_or_IsStored w (λ x. x.work_order_id) a _ s
            (mem-inserted on_work_order_assignments mk w m))
        (λ a m. inl m) h.once h

  -- the file of a new attachment is not attached to its order
  abbrev pub IsFresh : World db → WorkOrderAttachment → Type 0
  IsFresh w x =
      (a : WorkOrderAttachment)
      → Memᴰ a (all_rows on_work_order_attachments w)
      → a.work_order_id ≡ x.work_order_id
      → a.upload_file_id ≢ x.upload_file_id

  pub insert_attachment_step :
      {k : Change} {w : World db} (mk : ℕ → WorkOrderAttachment)
      → Intact w
      → IsStored w (inserted on_work_order_attachments mk w).0.work_order_id
      → IsFresh w (inserted on_work_order_attachments mk w).0
      → WorkStep k w (inserted on_work_order_attachments mk w).1
  unfolding row find_one select inserted all_rows
  insert_attachment_step {w = w} mk h s fresh =
      children_change (λ id. refl) refl (λ c m. inl m) (λ a m. inl m)
        (λ a m.
          old_or_IsStored w (λ x. x.work_order_id) a _ s
            (mem-inserted on_work_order_attachments mk w m))
        (λ a b m n.
          once a b (mem-inserted on_work_order_attachments mk w m)
            (mem-inserted on_work_order_attachments mk w n))
        h
    where
      Old : WorkOrderAttachment → Type 0
      Old a =
          Memᴰ a (all_rows on_work_order_attachments w)
          ⊎ (a ≡ (inserted on_work_order_attachments mk w).0)

      once :
          (a b : WorkOrderAttachment)
          → Old a
          → Old b
          → a.work_order_id ≡ b.work_order_id
          → a.upload_file_id ≡ b.upload_file_id
          → a ≡ b
      once a b (inl m) (inl n) e f = h.once a b m n e f
      once a b (inl m) (inr q) e f =
          absurd (fresh a m (e ∙ ap (λ x. x.work_order_id) q) (f ∙ ap (λ x. x.upload_file_id) q))
      once a b (inr p) (inl n) e f =
          absurd
            (fresh b n (sym e ∙ ap (λ x. x.work_order_id) p) (sym f ∙ ap (λ x. x.upload_file_id) p))
      once a b (inr p) (inr q) e f = p ∙ sym q

  -- deleting children
  pub delete_attachments_step :
      {k : Change} {w : World db} (c : WorkOrderAttachment → Bool)
      → Intact w
      → WorkStep k w (deleted on_work_order_attachments c w)
  unfolding row find_one select deleted all_rows
  delete_attachments_step {w = w} c h =
      children_change (λ id. refl) refl (λ x m. inl m) (λ a m. inl m)
        (λ a m. inl (mem-deleted on_work_order_attachments c w m).0)
        (λ a b m n.
          h.once a b (mem-deleted on_work_order_attachments c w m).0
            (mem-deleted on_work_order_attachments c w n).0)
        h

  pub delete_assignments_step :
      {k : Change} {w : World db} (c : WorkOrderAssignment → Bool)
      → Intact w
      → WorkStep k w (deleted on_work_order_assignments c w)
  unfolding row find_one select deleted all_rows
  delete_assignments_step {w = w} c h =
      children_change (λ id. refl) refl (λ x m. inl m)
        (λ a m. inl (mem-deleted on_work_order_assignments c w m).0) (λ a m. inl m) h.once h

  pub delete_comments_step :
      {k : Change} {w : World db} (c : WorkOrderComment → Bool)
      → Intact w
      → WorkStep k w (deleted on_work_order_comments c w)
  unfolding row find_one select deleted all_rows
  delete_comments_step {w = w} c h =
      children_change (λ id. refl) refl (λ x m. inl (mem-deleted on_work_order_comments c w m).0)
        (λ a m. inl m) (λ a m. inl m) h.once h

  -- no row refers to the order
  pub record NoChildren (w : World db) (id : ℕ) : Type 0 where
    pub comments :
        (c : WorkOrderComment) → Memᴰ c (all_rows on_work_order_comments w) → c.work_order_id ≢ id
    pub assignments :
        (a : WorkOrderAssignment)
        → Memᴰ a (all_rows on_work_order_assignments w)
        → a.work_order_id ≢ id
    pub attachments :
        (a : WorkOrderAttachment)
        → Memᴰ a (all_rows on_work_order_attachments w)
        → a.work_order_id ≢ id

  -- an order without children may go
  same_comments :
      (w : World db) (id : ℕ) {c : WorkOrderComment}
      → Memᴰ c (all_rows on_work_order_comments (deleted on_work_orders (λ o. o.id == id) w))
      → Memᴰ c (all_rows on_work_order_comments w)
  unfolding all_rows deleted
  same_comments w id m = m

  same_assignments :
      (w : World db) (id : ℕ) {c : WorkOrderAssignment}
      → Memᴰ c (all_rows on_work_order_assignments (deleted on_work_orders (λ o. o.id == id) w))
      → Memᴰ c (all_rows on_work_order_assignments w)
  unfolding all_rows deleted
  same_assignments w id m = m

  same_attachments :
      (w : World db) (id : ℕ) {c : WorkOrderAttachment}
      → Memᴰ c (all_rows on_work_order_attachments (deleted on_work_orders (λ o. o.id == id) w))
      → Memᴰ c (all_rows on_work_order_attachments w)
  unfolding all_rows deleted
  same_attachments w id m = m

  pub delete_order_Intact :
      {w : World db} (id : ℕ)
      → Intact w
      → NoChildren w id
      → Intact (deleted on_work_orders (λ o. o.id == id) w)
  delete_order_Intact {w} id h none_there = record {
    comments = λ c m.
        kept c.work_order_id (none_there.comments c (same_comments w id m))
          (h.comments c (same_comments w id m));
    assignments = λ a m.
        kept a.work_order_id (none_there.assignments a (same_assignments w id m))
          (h.assignments a (same_assignments w id m));
    attachments = λ a m.
        kept a.work_order_id (none_there.attachments a (same_attachments w id m))
          (h.attachments a (same_attachments w id m));
    once = λ a b m n. h.once a b (same_attachments w id m) (same_attachments w id n);
  }
    where
      kept :
          (j : ℕ) → j ≢ id → IsStored w j → IsStored (deleted on_work_orders (λ o. o.id == id) w) j
      kept j n (o, e) = (o, row-deleted on_work_orders id j w ∙ ground (arith, e))

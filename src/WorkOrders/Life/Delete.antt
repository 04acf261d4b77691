-- ===== src/WorkOrders/Life/Delete.antt =====
-- `delete` of src/controllers/admin/work_orders.rs: an order goes after its children.
use rust_template.Base.{ℕ, String, ◌≡◌, ◌≢◌, refl, ◌∙◌, true, not, none, ◌==◌, ==_refl, arith}
use rust_template.Api.{Result, ok, err}
use rust_template.Db.Interface.{Database}
use rust_template.Db.Handler.{Runs}
use rust_template.Db.Rules.{Runs-reads}
use rust_template.Db.Rows.{row, find_one, select, deleted, all_rows, Runs-delete_many}
use rust_template.Db.Members.{mem-deleted, row-deleted, Runs-bind-delete}
use rust_template.Env.{Env}
use rust_template.World.{
  World, on_work_orders, on_work_order_comments, on_work_order_assignments,
  on_work_order_attachments,
}
use rust_template.Rbac.Check.{UniqueCodes, authorize_lem}
use rust_template.WorkOrders.Visible.{find_visible_work_order_lem}
use rust_template.WorkOrders.Orders.{delete}
use rust_template.WorkOrders.Life.{kept, Intact, WorkStep}
use rust_template.WorkOrders.Life.Steps.{WorkStep-refl, WorkStep-trans}
use rust_template.WorkOrders.Life.Rows.{
  delete_attachments_step, delete_assignments_step, delete_comments_step, NoChildren,
  delete_order_Intact,
}

module _ {db : Database} (w : World db) (id : ℕ) where
  -- the tables after each deletion
  abbrev without_attachments : World db
  without_attachments = deleted on_work_order_attachments (λ a. a.work_order_id == id) w

  abbrev without_assignments : World db
  without_assignments =
      deleted on_work_order_assignments (λ a. a.work_order_id == id) without_attachments

  abbrev without_children : World db
  without_children = deleted on_work_order_comments (λ c. c.work_order_id == id) without_assignments

  apart : (n : ℕ) → not (n == id) ≡ true → n ≢ id
  apart n h e = ground arith

  no_children : NoChildren without_children id
  unfolding all_rows deleted
  no_children = record {
    comments =
        λ c m. apart c.work_order_id (mem-deleted on_work_order_comments _ without_assignments m).1;
    assignments = λ a m.
        apart a.work_order_id
          (mem-deleted on_work_order_assignments (λ x. x.work_order_id == id) without_attachments
            m).1;
    attachments = λ a m.
        apart a.work_order_id
          (mem-deleted on_work_order_attachments (λ x. x.work_order_id == id) w m).1;
  }

  NoChildren-after : NoChildren (deleted on_work_orders (λ o. o.id == id) without_children) id
  unfolding all_rows deleted
  NoChildren-after = record {
    comments = λ c m. no_children.comments c m;
    assignments = λ a m. no_children.assignments a m;
    attachments = λ a m. no_children.attachments a m;
  }

  same_orders : (j : ℕ) → row on_work_orders j without_children ≡ row on_work_orders j w
  unfolding row find_one select deleted
  same_orders j = refl

  same_permissions :
      (deleted on_work_orders (λ o. o.id == id) without_children).permissions ≡ w.permissions
  unfolding deleted
  same_permissions = refl

  others_stay :
      (j : ℕ)
      → id ≢ j
      → row on_work_orders j (deleted on_work_orders (λ o. o.id == id) without_children)
        ≡ row on_work_orders j w
  others_stay j n =
      row-deleted on_work_orders id j without_children ∙ (ground arith) ∙ same_orders j

  -- how `delete` ends
  abbrev pub Removes : Result (Unit {0}) → World db → Type 0
  Removes (ok u) w' =
      (row on_work_orders id w' ≡ none)
      × NoChildren w' id
      × Intact w'
      × ((j : ℕ) → id ≢ j → row on_work_orders j w' ≡ row on_work_orders j w)
      × (w'.permissions ≡ w.permissions)
  Removes (err e) w' = WorkStep kept w w'

  -- From intact tables with unique permission codes, `delete` removes the order, its comments, assignments and attachments, and no other order. When
  -- a database call fails midway the order is still stored, and no row refers to an order that is
  -- not.
  pub delete_lem :
      Intact w → UniqueCodes w → (env : Env) (pid : String) → Runs (delete env pid id) w Removes
  unfolding delete
  delete_lem h unique env pid =
      let s0 : WorkStep kept w w = WorkStep-refl h in
      let s1 : WorkStep kept w without_attachments =
        delete_attachments_step {w = w} (λ a. a.work_order_id == id) h in
      let s2 : WorkStep kept w without_assignments = WorkStep-trans s1 (
        delete_assignments_step {w = without_attachments} (λ a. a.work_order_id == id) s1.intact) in
      let s3 : WorkStep kept w without_children =
        WorkStep-trans s2
          (delete_comments_step {w = without_assignments} (λ c. c.work_order_id == id) s2.intact) in
      Runs-reads _ (authorize_lem w env.parse_uuid pid "system:work_order:delete" unique)
        (λ actor a.
          Runs-reads _ (find_visible_work_order_lem w actor id)
            (λ order o.
              Runs-bind-delete on_work_order_attachments _ _
                (Runs-bind-delete on_work_order_assignments _ _
                  (Runs-bind-delete on_work_order_comments _ _
                    (Runs-delete_many on_work_orders (λ o. o.id == id) (gone s3.intact) s3) s2)
                  s1)
                s0)
            (λ e q. s0))
        (λ e q. s0)
    where
      gone :
          Intact without_children
          → Removes (ok tt) (deleted on_work_orders (λ o. o.id == id) without_children)
      gone k = (
        row-deleted on_work_orders id id without_children ∙ rw (==_refl id) refl,
        NoChildren-after,
        delete_order_Intact id k no_children,
        others_stay,
        same_permissions,
      )

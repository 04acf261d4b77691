-- ===== src/WorkOrders/Life/MovedRow.antt =====
-- What the columns that `transition` of src/controllers/admin/work_orders.rs sets make of the row of
-- an order.
use rust_template.Base.{
  ℕ, String, ◌≡◌, refl, ◌⊎◌, inl, inr, ◌≢◌, Bool-cases, true, false, str_eq, eq_iff, Option, some,
  if◌then◌else◌,
}
use rust_template.Env.{Env}
use rust_template.Entities.Orders.{WorkOrder}
use rust_template.WorkOrders.Records.{work_order_record}
use rust_template.WorkOrders.Orders.{moved_work_order}

module _ (env : Env) where
  -- the order after the change and its comment
  abbrev pub commented : String → WorkOrder → WorkOrder
  commented t o = record (moved_work_order env t o) { last_comment_at = some env.now }

  -- the time that a step sets: of a step to the status, the time of the request, else what was
  -- stored
  abbrev pub IsTimed : String → String → Option ℕ → Option ℕ → Type 0
  IsTimed t at before after = (t ≡ at → after ≡ some env.now) × (t ≢ at → after ≡ before)

  -- what a step to the status `t` makes of the row of an order
  pub record IsMoved (t : String) (order stored : WorkOrder) : Type 0 where
    pub status : stored.status ≡ t
    pub resolved : IsTimed t "resolved" order.resolved_at stored.resolved_at
    pub closed : IsTimed t "closed" order.closed_at stored.closed_at
    pub same_id : stored.id ≡ order.id
    pub same_no : stored.order_no ≡ order.order_no
    pub same_tenant : stored.tenant_id ≡ order.tenant_id
    pub same_creator : stored.creator_id ≡ order.creator_id
    pub same_assignee : stored.assignee_id ≡ order.assignee_id
    pub same_title : stored.title ≡ order.title
    pub same_priority : stored.priority ≡ order.priority

  timed :
      (t at : String) (before : Option ℕ)
      → IsTimed t at before (if str_eq t at then some env.now else before)
  timed t at before = (λ e. rw ((eq_iff t at).1 e) refl, λ n. apart (Bool-cases (str_eq t at)) n)
    where
      apart :
          (str_eq t at ≡ true) ⊎ (str_eq t at ≡ false)
          → t ≢ at
          → (if str_eq t at then some env.now else before) ≡ before
      apart (inl e) n = absurd (n ((eq_iff t at).0 e))
      apart (inr e) n = rw e refl

  pub moved_work_order-IsMoved :
      (t : String) (o : WorkOrder) → IsMoved t o (moved_work_order env t o)
  unfolding moved_work_order
  moved_work_order-IsMoved t o = record {
    status = refl;
    resolved = timed t "resolved" o.resolved_at;
    closed = timed t "closed" o.closed_at;
    same_id = refl;
    same_no = refl;
    same_tenant = refl;
    same_creator = refl;
    same_assignee = refl;
    same_title = refl;
    same_priority = refl;
  }

  pub commented-IsMoved : (t : String) (o : WorkOrder) → IsMoved t o (commented t o)
  unfolding moved_work_order
  commented-IsMoved t o =
      let m = moved_work_order-IsMoved t o in
      record {
        status = m.status;
        resolved = m.resolved;
        closed = m.closed;
        same_id = refl;
        same_no = refl;
        same_tenant = refl;
        same_creator = refl;
        same_assignee = refl;
        same_title = refl;
        same_priority = refl;
      }

  -- the answer was made before the time of the comment was set
  pub answered_before :
      (t : String) (o : WorkOrder)
      → work_order_record env (moved_work_order env t o)
        ≡ work_order_record env (record (commented t o) { last_comment_at = o.last_comment_at })
  unfolding moved_work_order
  answered_before t o = refl

  pub moved_id : (t : String) (o : WorkOrder) → (moved_work_order env t o).id ≡ o.id
  unfolding moved_work_order
  moved_id t o = refl

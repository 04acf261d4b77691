-- ===== src/WorkOrders/Visible.antt =====
-- Who sees which work order: the condition of the list query, and the test and the lookup of the
-- other handlers in src/controllers/admin/work_orders.rs.
use rust_template.Base.{ℕ, ◌≡◌, Bool, false, ◌||◌, none, some, is_some_of, arith, if◌then◌else◌}
use rust_template.Api.{ok_or, bad_request, forbidden}
use rust_template.Db.Interface.{Database}
use rust_template.Db.Handler.{Handler, query, lift, pure, raise, ◌>>=◌}
use rust_template.Db.Rules.{ReadsIf}
use rust_template.Db.Rows.{row}
use rust_template.Entities.Access.{User}
use rust_template.Entities.Orders.{WorkOrder}
use rust_template.World.{World, on_work_orders}
use rust_template.Rbac.Roles.{is_super_admin}
use rust_template.Rbac.Visible.{CanSee, LookupFails, find_visible_lem}

-- the condition starts with the creator and the assignee; a tenant is added to it
unfoldable pub visible_condition : User → WorkOrder → Bool
visible_condition actor work_order =
    let condition =
      is_some_of work_order.creator_id actor.id || is_some_of work_order.assignee_id actor.id in
    elim actor.tenant_id [
      | none ↦ condition
      | some tenant_id ↦ condition || is_some_of work_order.tenant_id tenant_id
    ]

unfoldable pub is_visible : User → WorkOrder → Bool
is_visible actor work_order =
    is_some_of work_order.creator_id actor.id
    || is_some_of work_order.assignee_id actor.id
    || elim actor.tenant_id [
      | none ↦ false
      | some tenant_id ↦ is_some_of work_order.tenant_id tenant_id
    ]

module _ {db : Database} (actor : User) where
  unfoldable pub find_visible_work_order : ℕ → Handler (World db) WorkOrder
  find_visible_work_order id = do
    found ← query (row on_work_orders id)
    work_order ← lift (ok_or found (bad_request "work order not found"))
    super ← is_super_admin actor.id
    if super || is_visible actor work_order
        then pure work_order
        else raise (forbidden "work order is not visible")

-- The condition of the list query admits exactly the work orders that the lookup of one admits.
pub work_order_condition-is_visible :
    (actor : User) (work_order : WorkOrder)
    → visible_condition actor work_order ≡ is_visible actor work_order
unfolding visible_condition is_visible
work_order_condition-is_visible actor work_order = ground arith

module _ {db : Database} (w : World db) (actor : User) where
  -- `find_visible_work_order` returns the stored order with that id if the actor may see it.
  -- Otherwise it says that there is none, or that it is not visible, each exactly in that case,
  -- unless a query fails; it writes nothing.
  pub find_visible_work_order_lem :
      {F : Type 0} (id : ℕ)
      → ReadsIf F
          (find_visible_work_order actor id)
          w
          (λ o.
            (row on_work_orders id w ≡ some o) × CanSee w on_work_orders actor (is_visible actor) o)
          (LookupFails w on_work_orders actor
            (is_visible actor)
            F
            (bad_request "work order not found")
            (forbidden "work order is not visible")
            id)
  unfolding find_visible_work_order
  find_visible_work_order_lem = find_visible_lem w on_work_orders actor (is_visible actor) _ _

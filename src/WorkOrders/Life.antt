-- ===== src/WorkOrders/Life.antt =====
-- The life cycle of work orders that src/controllers/admin/work_orders.rs is meant to follow, and
-- what its tables keep.
pub mod Transitions
pub mod Steps
pub mod Rows
pub mod Keeps
pub mod Changes
pub mod Handlers
pub mod Delete
pub mod MovedRow
pub mod Moved
pub mod Reach
use mathlib.Core.List.{Memᴰ}
use rust_template.Base.{ℕ, String, ◌≡◌, refl, ◌⊎◌, Bool, true, Option, none, some, List, [], ◌∷◌}
use rust_template.Base.Text.{contains}
use rust_template.Db.Interface.{Database}
use rust_template.Db.Rows.{row, all_rows}
use rust_template.Entities.Orders.{
  WorkOrder, WorkOrderComment, WorkOrderAssignment, WorkOrderAttachment,
}
use rust_template.World.{
  World, on_work_orders, on_work_order_comments, on_work_order_assignments,
  on_work_order_attachments,
}

-- the steps of the work on an order, by what each is for
pub data Transition (s t : String) : Type 0 where
  assigned : s ≡ "open" → t ≡ "assigned" → Transition s t
  started :
      contains ("open" ∷ "assigned" ∷ "pending" ∷ []) s ≡ true → t ≡ "in_progress" → Transition s t
  reopened : s ≡ "resolved" → t ≡ "in_progress" → Transition s t
  suspended : contains ("assigned" ∷ "in_progress" ∷ []) s ≡ true → t ≡ "pending" → Transition s t
  resolved : contains ("in_progress" ∷ "pending" ∷ []) s ≡ true → t ≡ "resolved" → Transition s t
  closed : s ≡ "resolved" → t ≡ "closed" → Transition s t
  cancelled :
      contains ("open" ∷ "assigned" ∷ "in_progress" ∷ "pending" ∷ []) s ≡ true
      → t ≡ "cancelled"
      → Transition s t

-- What a request may do to the status of an order.
pub data Change : Type 0 where
  -- nothing
  kept : Change
  -- a step of the life cycle to the status
  moved_to : String → Change
  -- an open order gets an assignee
  filled : Change
  -- an order is assigned, whatever its status
  assigned_anew : Change

unfoldable pub Allowed : Change → String → String → Type 0
Allowed kept s t = ⊥
Allowed (moved_to m) s t = Transition s m × (t ≡ m)
Allowed filled s t = (s ≡ "open") × (t ≡ "assigned")
Allowed assigned_anew s t = t ≡ "assigned"

-- The status `s` stays or becomes `t`.
abbrev pub WorkMoves : Change → String → String → Type 0
WorkMoves k s t = (t ≡ s) ⊎ Allowed k s t

-- how an order may change
pub record WorkGrows (k : Change) (o o' : WorkOrder) : Type 0 where
  pub same_no : o'.order_no ≡ o.order_no
  pub same_tenant : o'.tenant_id ≡ o.tenant_id
  pub same_creator : o'.creator_id ≡ o.creator_id
  pub moves : WorkMoves k o.status o'.status

module _ {db : Database} where
  abbrev pub IsStored : World db → ℕ → Type 0
  IsStored w id = (o : WorkOrder) × (row on_work_orders id w ≡ some o)

  -- every comment, assignment and attachment belongs to a stored order, and no file is attached to
  -- an order twice
  pub record Intact (w : World db) : Type 0 where
    pub comments :
        (c : WorkOrderComment)
        → Memᴰ c (all_rows on_work_order_comments w)
        → IsStored w c.work_order_id
    pub assignments :
        (a : WorkOrderAssignment)
        → Memᴰ a (all_rows on_work_order_assignments w)
        → IsStored w a.work_order_id
    pub attachments :
        (a : WorkOrderAttachment)
        → Memᴰ a (all_rows on_work_order_attachments w)
        → IsStored w a.work_order_id
    pub once :
        (a b : WorkOrderAttachment)
        → Memᴰ a (all_rows on_work_order_attachments w)
        → Memᴰ b (all_rows on_work_order_attachments w)
        → a.work_order_id ≡ b.work_order_id
        → a.upload_file_id ≡ b.upload_file_id
        → a ≡ b

  -- how the tables may change while no order is deleted
  pub record WorkStep (k : Change) (w w' : World db) : Type 0 where
    pub orders :
        (id : ℕ) (o : WorkOrder)
        → row on_work_orders id w ≡ some o
        → (o' : WorkOrder) × (row on_work_orders id w' ≡ some o') × WorkGrows k o o'
    pub intact : Intact w'
    pub permissions : w'.permissions ≡ w.permissions

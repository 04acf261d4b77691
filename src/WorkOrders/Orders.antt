-- ===== src/WorkOrders/Orders.antt =====
-- The handlers of src/controllers/admin/work_orders.rs.
use mathlib.Core.Option
use Prim.Native.String.{◌++◌ as str_append}
use rust_template.Base.{
  ℕ, String, Bool, not, ◌&&◌, Option, none, some, [], ◌==◌, str_eq, is_some, is_some_of, unwrap_or,
  if◌then◌else◌,
}
use rust_template.Base.Text.{trim, is_blank}
use rust_template.Api.{ok_or, ensure, bad_request}
use rust_template.Db.Interface.{Database}
use rust_template.Db.Handler.{Handler, query, lift, pure, ◌>>=◌, ◌>>◌}
use rust_template.Db.Rows.{find_one, insert, update, delete_many}
use rust_template.Env.{Env}
use rust_template.Entities.Access.{User}
use rust_template.Entities.Orders.{WorkOrder}
use rust_template.World.{
  World, on_work_orders, on_work_order_comments, on_work_order_assignments,
  on_work_order_attachments,
}
use rust_template.Rbac.Authorize.{authorize}
use rust_template.WorkOrders.Params.{
  SaveWorkOrderParams, TransitionWorkOrderParams, CreateWorkOrderCommentParams,
  AssignWorkOrderParams, CreateWorkOrderAttachmentParams,
}
use rust_template.WorkOrders.Records.{
  WorkOrderRecord, WorkOrderCommentRecord, WorkOrderAttachmentRecord, WorkOrderDetailRecord,
  work_order_record, comment_record,
}
use rust_template.WorkOrders.Validate.{
  trim_optional, validate_transition, parse_time, validate_save_params, next_order_no,
}
use rust_template.WorkOrders.Visible.{find_visible_work_order}
use rust_template.WorkOrders.Children.{
  ensure_assignee, create_assignment_record, create_comment_record, add_attachment_record,
  add_attachment_records, load_detail,
}

-- `work_order.assignee_id != params.assignee_id`
unfoldable pub is_assignee_changed : Option ℕ → Option ℕ → Bool
is_assignee_changed none other = is_some other
is_assignee_changed (some a) other = not (is_some_of other a)

module _ (env : Env) where
  -- the row that `create` inserts
  unfoldable pub new_work_order : User → SaveWorkOrderParams → Option ℕ → ℕ → WorkOrder
  new_work_order actor params due_at id = record {
    created_at = env.now;
    updated_at = env.now;
    id = id;
    order_no = next_order_no env;
    title = trim params.title;
    description = trim params.description;
    category = trim_optional params.category;
    priority = unwrap_or params.priority "normal";
    status = if is_some params.assignee_id then "assigned" else "open";
    source = "admin";
    tenant_id = actor.tenant_id;
    creator_id = some actor.id;
    assignee_id = params.assignee_id;
    assigned_at = Option.map (λ _. env.now) params.assignee_id;
    resolved_at = none;
    closed_at = none;
    due_at = due_at;
    last_comment_at = none;
    metadata = trim_optional params.metadata;
  }

  -- the status and time that `update` sets when the assignee changes
  unfoldable pub reassigned : SaveWorkOrderParams → WorkOrder → WorkOrder
  unfolding is_assignee_changed
  reassigned params work_order =
      if is_assignee_changed work_order.assignee_id params.assignee_id
      then record work_order {
        assigned_at = Option.map (λ _. env.now) params.assignee_id;
        status =
            if is_some params.assignee_id && str_eq work_order.status "open"
            then "assigned"
            else work_order.status;
      }
      else work_order

  -- the columns that `update` sets, of the row that it read
  unfoldable pub saved_work_order : SaveWorkOrderParams → Option ℕ → WorkOrder → WorkOrder
  unfolding reassigned
  saved_work_order params due_at work_order = record (reassigned params work_order) {
    title = trim params.title;
    description = trim params.description;
    category = trim_optional params.category;
    priority = unwrap_or params.priority "normal";
    assignee_id = params.assignee_id;
    due_at = due_at;
    metadata = trim_optional params.metadata;
  }

  -- the columns that `transition` sets
  unfoldable pub moved_work_order : String → WorkOrder → WorkOrder
  moved_work_order status work_order = record work_order {
    status = status;
    resolved_at = if str_eq status "resolved" then some env.now else work_order.resolved_at;
    closed_at = if str_eq status "closed" then some env.now else work_order.closed_at;
  }

  -- the columns that `assign` sets
  unfoldable pub assigned_work_order : ℕ → WorkOrder → WorkOrder
  assigned_work_order assignee_id work_order = record work_order {
    assignee_id = some assignee_id;
    assigned_at = some env.now;
    status = "assigned";
  }

-- the body of the comment of a transition
unfoldable pub transition_body : TransitionWorkOrderParams → String
transition_body params = elim params.comment [
  | none ↦ str_append "status changed to " params.status
  | some comment ↦
      if is_blank (trim comment) then str_append "status changed to " params.status else comment
]

module _ {db : Database} (env : Env) (pid : String) where
  unfoldable pub get : ℕ → Handler (World db) WorkOrderDetailRecord
  get id = do
    actor ← authorize env.parse_uuid pid "system:work_order:list"
    work_order ← find_visible_work_order actor id
    load_detail env work_order

  -- the assignment of a work order that has an assignee
  unfoldable pub record_assignee : User → WorkOrder → Handler (World db) (Unit {0})
  record_assignee actor work_order = elim work_order.assignee_id [
    | none ↦ pure tt
    | some assignee_id ↦ (do
      _ ← create_assignment_record env work_order assignee_id (some actor.id) none
      pure tt)
  ]

  unfoldable pub create : SaveWorkOrderParams → Handler (World db) WorkOrderRecord
  create params = do
    actor ← authorize env.parse_uuid pid "system:work_order:create"
    lift (validate_save_params env params)
    ensure_assignee params.assignee_id
    due_at ← lift (parse_time env params.due_at)
    work_order ← insert on_work_orders (new_work_order env actor params due_at)
    record_assignee actor work_order
    add_attachment_records env work_order (some actor.id) (unwrap_or params.attachment_file_ids [])
    pure (work_order_record env work_order)

  unfoldable pub update_work_order : ℕ → SaveWorkOrderParams → Handler (World db) WorkOrderRecord
  update_work_order id params = do
    actor ← authorize env.parse_uuid pid "system:work_order:update"
    lift (validate_save_params env params)
    ensure_assignee params.assignee_id
    work_order ← find_visible_work_order actor id
    due_at ← lift (parse_time env params.due_at)
    saved ← update on_work_orders work_order.id (saved_work_order env params due_at)
    if is_assignee_changed work_order.assignee_id params.assignee_id
        then record_assignee actor saved
        else pure tt
    add_attachment_records env saved (some actor.id) (unwrap_or params.attachment_file_ids [])
    pure (work_order_record env saved)

  unfoldable pub delete : ℕ → Handler (World db) (Unit {0})
  delete id = do
    actor ← authorize env.parse_uuid pid "system:work_order:delete"
    _ ← find_visible_work_order actor id
    delete_many on_work_order_attachments (λ a. a.work_order_id == id)
    delete_many on_work_order_assignments (λ a. a.work_order_id == id)
    delete_many on_work_order_comments (λ c. c.work_order_id == id)
    delete_many on_work_orders (λ o. o.id == id)

  unfoldable pub transition : ℕ → TransitionWorkOrderParams → Handler (World db) WorkOrderRecord
  transition id params = do
    actor ← authorize env.parse_uuid pid "system:work_order:transition"
    work_order ← find_visible_work_order actor id
    lift (validate_transition work_order.status params.status)
    updated ← update on_work_orders work_order.id (moved_work_order env params.status)
    _ ←
        create_comment_record env updated (some actor.id) (transition_body params) "status_change"
          (some work_order.status) (some params.status)
    pure (work_order_record env updated)

  unfoldable pub create_comment :
      ℕ → CreateWorkOrderCommentParams → Handler (World db) WorkOrderCommentRecord
  create_comment id params = do
    actor ← authorize env.parse_uuid pid "system:work_order:comment"
    lift (ensure (not (is_blank (trim params.body))) (bad_request "comment body is required"))
    work_order ← find_visible_work_order actor id
    comment ← create_comment_record env work_order (some actor.id) params.body "comment" none none
    pure (comment_record env comment)

  unfoldable pub assign : ℕ → AssignWorkOrderParams → Handler (World db) WorkOrderRecord
  assign id params = do
    actor ← authorize env.parse_uuid pid "system:work_order:assign"
    ensure_assignee (some params.assignee_id)
    work_order ← find_visible_work_order actor id
    updated ← update on_work_orders work_order.id (assigned_work_order env params.assignee_id)
    _ ← create_assignment_record env updated params.assignee_id (some actor.id) params.note
    _ ←
        create_comment_record env updated (some actor.id)
          (unwrap_or params.note "work order assigned") "assignment" none none
    pure (work_order_record env updated)

  unfoldable pub create_attachment :
      ℕ → CreateWorkOrderAttachmentParams → Handler (World db) WorkOrderAttachmentRecord
  create_attachment id params = do
    actor ← authorize env.parse_uuid pid "system:work_order:attachment"
    work_order ← find_visible_work_order actor id
    add_attachment_record env work_order params.upload_file_id (some actor.id) params.description

  unfoldable pub delete_attachment : ℕ → ℕ → Handler (World db) (Unit {0})
  delete_attachment id attachment_id = do
    actor ← authorize env.parse_uuid pid "system:work_order:attachment"
    _ ← find_visible_work_order actor id
    found ←
        query
          (find_one on_work_order_attachments (λ a. a.id == attachment_id && a.work_order_id == id))
    attachment ← lift (ok_or found (bad_request "work order attachment not found"))
    delete_many on_work_order_attachments (λ a. a.id == attachment.id)

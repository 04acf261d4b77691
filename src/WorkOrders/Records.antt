-- ===== src/WorkOrders/Records.antt =====
-- The records that src/controllers/admin/work_orders.rs sends.
use rust_template.Base.{ℕ, String, Option, List}
use mathlib.Core.Option
use rust_template.Env.{Env}
use rust_template.Entities.Orders.{WorkOrder, WorkOrderComment, WorkOrderAssignment}

pub record WorkOrderRecord : Type 0 where
  pub id : ℕ
  pub order_no : String
  pub title : String
  pub description : String
  pub category : Option String
  pub priority : String
  pub status : String
  pub source : String
  pub tenant_id : Option ℕ
  pub creator_id : Option ℕ
  pub assignee_id : Option ℕ
  pub assigned_at : Option String
  pub resolved_at : Option String
  pub closed_at : Option String
  pub due_at : Option String
  pub last_comment_at : Option String
  pub metadata : Option String
  pub created_at : String
  pub updated_at : String

pub record WorkOrderCommentRecord : Type 0 where
  pub id : ℕ
  pub tenant_id : Option ℕ
  pub work_order_id : ℕ
  pub author_id : Option ℕ
  pub body : String
  pub comment_type : String
  pub from_status : Option String
  pub to_status : Option String
  pub metadata : Option String
  pub created_at : String
  pub updated_at : String

pub record WorkOrderAssignmentRecord : Type 0 where
  pub id : ℕ
  pub tenant_id : Option ℕ
  pub work_order_id : ℕ
  pub assignee_id : ℕ
  pub assigned_by_id : Option ℕ
  pub note : Option String
  pub created_at : String
  pub updated_at : String

pub record WorkOrderAttachmentRecord : Type 0 where
  pub id : ℕ
  pub tenant_id : Option ℕ
  pub work_order_id : ℕ
  pub upload_file_id : ℕ
  pub uploaded_by_id : Option ℕ
  pub description : Option String
  pub original_name : Option String
  pub url : Option String
  pub created_at : String
  pub updated_at : String

pub record WorkOrderDetailRecord : Type 0 where
  pub work_order : WorkOrderRecord
  pub comments : List WorkOrderCommentRecord
  pub assignments : List WorkOrderAssignmentRecord
  pub attachments : List WorkOrderAttachmentRecord

module _ (env : Env) where
  unfoldable pub work_order_record : WorkOrder → WorkOrderRecord
  work_order_record work_order = record {
    id = work_order.id;
    order_no = work_order.order_no;
    title = work_order.title;
    description = work_order.description;
    category = work_order.category;
    priority = work_order.priority;
    status = work_order.status;
    source = work_order.source;
    tenant_id = work_order.tenant_id;
    creator_id = work_order.creator_id;
    assignee_id = work_order.assignee_id;
    assigned_at = Option.map env.to_rfc3339 work_order.assigned_at;
    resolved_at = Option.map env.to_rfc3339 work_order.resolved_at;
    closed_at = Option.map env.to_rfc3339 work_order.closed_at;
    due_at = Option.map env.to_rfc3339 work_order.due_at;
    last_comment_at = Option.map env.to_rfc3339 work_order.last_comment_at;
    metadata = work_order.metadata;
    created_at = env.to_rfc3339 work_order.created_at;
    updated_at = env.to_rfc3339 work_order.updated_at;
  }

  unfoldable pub comment_record : WorkOrderComment → WorkOrderCommentRecord
  comment_record comment = record {
    id = comment.id;
    tenant_id = comment.tenant_id;
    work_order_id = comment.work_order_id;
    author_id = comment.author_id;
    body = comment.body;
    comment_type = comment.comment_type;
    from_status = comment.from_status;
    to_status = comment.to_status;
    metadata = comment.metadata;
    created_at = env.to_rfc3339 comment.created_at;
    updated_at = env.to_rfc3339 comment.updated_at;
  }

  unfoldable pub assignment_record : WorkOrderAssignment → WorkOrderAssignmentRecord
  assignment_record assignment = record {
    id = assignment.id;
    tenant_id = assignment.tenant_id;
    work_order_id = assignment.work_order_id;
    assignee_id = assignment.assignee_id;
    assigned_by_id = assignment.assigned_by_id;
    note = assignment.note;
    created_at = env.to_rfc3339 assignment.created_at;
    updated_at = env.to_rfc3339 assignment.updated_at;
  }

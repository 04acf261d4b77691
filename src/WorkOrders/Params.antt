-- ===== src/WorkOrders/Params.antt =====
-- The request bodies of src/controllers/admin/work_orders.rs.
use rust_template.Base.{ℕ, String, Option, List}

pub record SaveWorkOrderParams : Type 0 where
  pub title : String
  pub description : String
  pub category : Option String
  pub priority : Option String
  pub assignee_id : Option ℕ
  pub due_at : Option String
  pub metadata : Option String
  pub attachment_file_ids : Option (List ℕ)

pub record TransitionWorkOrderParams : Type 0 where
  pub status : String
  pub comment : Option String

pub record CreateWorkOrderCommentParams : Type 0 where
  pub body : String

pub record AssignWorkOrderParams : Type 0 where
  pub assignee_id : ℕ
  pub note : Option String

pub record CreateWorkOrderAttachmentParams : Type 0 where
  pub upload_file_id : ℕ
  pub description : Option String

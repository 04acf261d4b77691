-- ===== src/Entities/Orders.antt =====
-- The rows of src/models/_entities: the work orders and their records. A time is a number of
-- milliseconds, a UUID its text.
use rust_template.Base.{ℕ, String, Option}

pub record WorkOrder : Type 0 where
  pub created_at : ℕ
  pub updated_at : ℕ
  pub id : ℕ
  pub order_no : String
  pub title : String
  pub description : String
  pub category : Option String
  pub priority : String
  pub status : String
  pub source : String
  pub tenant_id : Option ℕ
  pub creator_id : Option ℕ
  pub assignee_id : Option ℕ
  pub assigned_at : Option ℕ
  pub resolved_at : Option ℕ
  pub closed_at : Option ℕ
  pub due_at : Option ℕ
  pub last_comment_at : Option ℕ
  pub metadata : Option String

pub record WorkOrderComment : Type 0 where
  pub created_at : ℕ
  pub updated_at : ℕ
  pub id : ℕ
  pub tenant_id : Option ℕ
  pub work_order_id : ℕ
  pub author_id : Option ℕ
  pub body : String
  pub comment_type : String
  pub from_status : Option String
  pub to_status : Option String
  pub metadata : Option String

pub record WorkOrderAssignment : Type 0 where
  pub created_at : ℕ
  pub updated_at : ℕ
  pub id : ℕ
  pub tenant_id : Option ℕ
  pub work_order_id : ℕ
  pub assignee_id : ℕ
  pub assigned_by_id : Option ℕ
  pub note : Option String

pub record WorkOrderAttachment : Type 0 where
  pub created_at : ℕ
  pub updated_at : ℕ
  pub id : ℕ
  pub tenant_id : Option ℕ
  pub work_order_id : ℕ
  pub upload_file_id : ℕ
  pub uploaded_by_id : Option ℕ
  pub description : Option String

pub record UploadFile : Type 0 where
  pub created_at : ℕ
  pub updated_at : ℕ
  pub id : ℕ
  pub storage : String
  pub storage_profile_id : Option ℕ
  pub storage_bucket_id : Option ℕ
  pub bucket : Option String
  pub prefix : Option String
  pub etag : Option String
  pub object_key : String
  pub url : String
  pub original_name : String
  pub filename : String
  pub extension : Option String
  pub mime_type : Option String
  pub size_bytes : ℕ
  pub sha256 : String
  pub category : Option String
  pub tags : Option String
  pub visibility : String
  pub status : String
  pub uploader_id : Option ℕ

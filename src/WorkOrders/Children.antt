-- ===== src/WorkOrders/Children.antt =====
-- The assignments, comments and attachments of a work order in
-- src/controllers/admin/work_orders.rs.
use mathlib.Core.Option
use rust_template.Base.{
  ℕ, String, ◌&&◌, Option, none, some, List, [], ◌∷◌, map, leb, ◌==◌, is_some, if◌then◌else◌,
}
use rust_template.Base.Sort.{sort_by}
use rust_template.Base.Text.{trim}
use rust_template.Api.{ok_or, bad_request}
use rust_template.Db.Interface.{Database}
use rust_template.Db.Handler.{Handler, query, lift, pure, raise, ◌>>=◌}
use rust_template.Db.Rows.{row, select, find_one, insert, update}
use rust_template.Env.{Env}
use rust_template.Entities.Orders.{
  WorkOrder, WorkOrderComment, WorkOrderAssignment, WorkOrderAttachment, UploadFile,
}
use rust_template.World.{
  World, on_users, on_upload_files, on_work_orders, on_work_order_comments,
  on_work_order_assignments, on_work_order_attachments,
}
use rust_template.WorkOrders.Records.{
  WorkOrderCommentRecord, WorkOrderAssignmentRecord, WorkOrderAttachmentRecord,
  WorkOrderDetailRecord, work_order_record, comment_record, assignment_record,
}
use rust_template.WorkOrders.Validate.{trim_optional}

module _ {db : Database} where
  unfoldable pub ensure_assignee : Option ℕ → Handler (World db) (Unit {0})
  ensure_assignee none = pure tt
  ensure_assignee (some assignee_id) = do
    found ← query (row on_users assignee_id)
    _ ← lift (ok_or found (bad_request "assignee not found"))
    pure tt

module _ (env : Env) (work_order : WorkOrder) where
  -- the rows that the functions below insert
  unfoldable pub new_assignment : ℕ → Option ℕ → Option String → ℕ → WorkOrderAssignment
  new_assignment assignee_id assigned_by_id note id = record {
    created_at = env.now;
    updated_at = env.now;
    id = id;
    tenant_id = work_order.tenant_id;
    work_order_id = work_order.id;
    assignee_id = assignee_id;
    assigned_by_id = assigned_by_id;
    note = trim_optional note;
  }

  unfoldable pub new_comment :
      Option ℕ → String → String → Option String → Option String → ℕ → WorkOrderComment
  new_comment author_id body comment_type from_status to_status id = record {
    created_at = env.now;
    updated_at = env.now;
    id = id;
    tenant_id = work_order.tenant_id;
    work_order_id = work_order.id;
    author_id = author_id;
    body = trim body;
    comment_type = comment_type;
    from_status = from_status;
    to_status = to_status;
    metadata = none;
  }

  unfoldable pub new_attachment : ℕ → Option ℕ → Option String → ℕ → WorkOrderAttachment
  new_attachment upload_file_id uploaded_by_id description id = record {
    created_at = env.now;
    updated_at = env.now;
    id = id;
    tenant_id = work_order.tenant_id;
    work_order_id = work_order.id;
    upload_file_id = upload_file_id;
    uploaded_by_id = uploaded_by_id;
    description = trim_optional description;
  }

module _ (env : Env) where
  -- the record of an attachment, whose file may be gone
  unfoldable pub attachment_fields :
      WorkOrderAttachment → Option UploadFile → WorkOrderAttachmentRecord
  attachment_fields attachment file = record {
    id = attachment.id;
    tenant_id = attachment.tenant_id;
    work_order_id = attachment.work_order_id;
    upload_file_id = attachment.upload_file_id;
    uploaded_by_id = attachment.uploaded_by_id;
    description = attachment.description;
    original_name = Option.map (λ f. f.original_name) file;
    url = Option.map (λ f. f.url) file;
    created_at = env.to_rfc3339 attachment.created_at;
    updated_at = env.to_rfc3339 attachment.updated_at;
  }

module _ {db : Database} (env : Env) where
  unfoldable pub create_assignment_record :
      WorkOrder → ℕ → Option ℕ → Option String → Handler (World db) WorkOrderAssignment
  create_assignment_record work_order assignee_id assigned_by_id note =
      insert on_work_order_assignments
        (new_assignment env work_order assignee_id assigned_by_id note)

  unfoldable pub create_comment_record :
      WorkOrder
      → Option ℕ
      → String
      → String
      → Option String
      → Option String
      → Handler (World db) WorkOrderComment
  create_comment_record work_order author_id body comment_type from_status to_status = do
    comment ←
        insert on_work_order_comments
          (new_comment env work_order author_id body comment_type from_status to_status)
    _ ←
        update on_work_orders work_order.id
          (λ o. record o { last_comment_at = some comment.created_at })
    pure comment

  unfoldable pub attachment_record :
      WorkOrderAttachment → Handler (World db) WorkOrderAttachmentRecord
  attachment_record attachment = do
    file ← query (row on_upload_files attachment.upload_file_id)
    pure (attachment_fields env attachment file)

  unfoldable pub add_attachment_record :
      WorkOrder → ℕ → Option ℕ → Option String → Handler (World db) WorkOrderAttachmentRecord
  add_attachment_record work_order upload_file_id uploaded_by_id description = do
    file ← query (row on_upload_files upload_file_id)
    _ ← lift (ok_or file (bad_request "upload file not found"))
    attached ← query (
        find_one on_work_order_attachments
          (λ a. a.work_order_id == work_order.id && a.upload_file_id == upload_file_id))
    if is_some attached then raise (bad_request "upload file already attached") else do
      attachment ←
          insert on_work_order_attachments
            (new_attachment env work_order upload_file_id uploaded_by_id description)
      attachment_record attachment

  -- `for file_id in file_ids { add_attachment_record(..).await?; }`
  unfoldable pub add_attachment_records :
      WorkOrder → Option ℕ → List ℕ → Handler (World db) (Unit {0})
  add_attachment_records work_order uploaded_by_id [] = pure tt
  add_attachment_records work_order uploaded_by_id (file_id ∷ file_ids) = do
    _ ← add_attachment_record work_order file_id uploaded_by_id none
    add_attachment_records work_order uploaded_by_id file_ids

  unfoldable pub load_comments : ℕ → Handler (World db) (List WorkOrderCommentRecord)
  load_comments id = do
    comments ← query (select on_work_order_comments (λ c. c.work_order_id == id))
    pure (map (comment_record env) (sort_by (λ a b. leb a.id b.id) comments))

  unfoldable pub load_assignments : ℕ → Handler (World db) (List WorkOrderAssignmentRecord)
  load_assignments id = do
    assignments ← query (select on_work_order_assignments (λ a. a.work_order_id == id))
    pure (map (assignment_record env) (sort_by (λ a b. leb a.id b.id) assignments))

  -- the loop of `load_attachments`, one query each
  unfoldable pub attachment_records :
      List WorkOrderAttachment → Handler (World db) (List WorkOrderAttachmentRecord)
  attachment_records [] = pure []
  attachment_records (attachment ∷ attachments) = do
    first ← attachment_record attachment
    others ← attachment_records attachments
    pure (first ∷ others)

  unfoldable pub load_attachments : ℕ → Handler (World db) (List WorkOrderAttachmentRecord)
  load_attachments id = do
    attachments ← query (select on_work_order_attachments (λ a. a.work_order_id == id))
    attachment_records (sort_by (λ a b. leb a.id b.id) attachments)

  unfoldable pub load_detail : WorkOrder → Handler (World db) WorkOrderDetailRecord
  load_detail work_order = do
    comments ← load_comments work_order.id
    assignments ← load_assignments work_order.id
    attachments ← load_attachments work_order.id
    pure (record {
      work_order = work_order_record env work_order;
      comments = comments;
      assignments = assignments;
      attachments = attachments;
    })

-- ===== src/Examples.antt =====
-- A small set of tables and requests on which the theorems are tried.
mod Access
mod Payments
mod WorkOrders
mod Auth
mod Services
use mathlib.Core.List.{Memᴰ}
use mathlib.Core.List.Memᴰ
use rust_template.Base.{
  ℕ, String, ◌≡◌, refl, sym, ap, ◌∙◌, Bool, true, false, Option, none, some, List, [], ◌∷◌,
}
use rust_template.Db.Memory.{memory}
use rust_template.Db.Rows.{all_rows}
use rust_template.Env.{Env}
use rust_template.Entities.Access.{
  User, UserRole, Role, Permission, RolePermission, UserDepartment, DataScope, RoleDataScope,
}
use rust_template.Entities.Sessions.{RefreshToken}
use rust_template.Entities.Places.{Department, Tenant}
use rust_template.Entities.Orders.{UploadFile, WorkOrder, WorkOrderComment, WorkOrderAttachment}
use rust_template.Entities.Payment.{PaymentChannel, PaymentOrder, PaymentCallback, PaymentRefund}
use rust_template.Base.Int.{pos}
use rust_template.Entities.Limits.{RateLimitRule}
use rust_template.World.{World, on_permissions}
use rust_template.Rbac.Check.{UniqueCodes}

abbrev pub env : Env
env = record {
  parse_uuid = λ s. some s;
  is_json = λ s. true;
  parse_from_rfc3339 = λ s. some 7;
  to_rfc3339 = λ t. "time";
  format_stamp = λ t. "stamp";
  id_text = λ n. "id";
  now = 42;
}

abbrev pub admin : User
admin = record {
  created_at = 0;
  updated_at = 0;
  id = 1;
  pid = "admin";
  email = "a@b";
  password = "hash:pw";
  api_key = "";
  name = "admin";
  reset_token = none;
  reset_sent_at = none;
  email_verification_token = none;
  email_verification_sent_at = none;
  email_verified_at = none;
  magic_link_token = none;
  magic_link_expiration = none;
  failed_login_attempts = 0;
  locked_until = none;
  last_failed_login_at = none;
  tenant_id = some 5;
  current_department_id = none;
}

abbrev pub clerk : User
clerk = record {
  created_at = 0;
  updated_at = 0;
  id = 2;
  pid = "clerk";
  email = "";
  password = "";
  api_key = "";
  name = "";
  reset_token = none;
  reset_sent_at = none;
  email_verification_token = none;
  email_verification_sent_at = none;
  email_verified_at = none;
  magic_link_token = none;
  magic_link_expiration = none;
  failed_login_attempts = 0;
  locked_until = none;
  last_failed_login_at = none;
  tenant_id = some 5;
  current_department_id = none;
}

abbrev pub guest : User
guest = record {
  created_at = 0;
  updated_at = 0;
  id = 3;
  pid = "guest";
  email = "";
  password = "";
  api_key = "";
  name = "";
  reset_token = none;
  reset_sent_at = none;
  email_verification_token = none;
  email_verification_sent_at = none;
  email_verified_at = none;
  magic_link_token = none;
  magic_link_expiration = none;
  failed_login_attempts = 0;
  locked_until = none;
  last_failed_login_at = none;
  tenant_id = none;
  current_department_id = none;
}

abbrev pub admin_role : Role
admin_role = record {
  created_at = 0;
  updated_at = 0;
  id = 1;
  name = "";
  code = "super_admin";
  description = none;
  is_system = true;
  enabled = true;
  tenant_id = none;
}

abbrev pub clerk_role : Role
clerk_role = record {
  created_at = 0;
  updated_at = 0;
  id = 2;
  name = "";
  code = "clerk";
  description = none;
  is_system = true;
  enabled = true;
  tenant_id = none;
}

abbrev pub listing : Permission
listing = record {
  created_at = 0;
  updated_at = 0;
  id = 4;
  name = "";
  code = "system:payment_order:list";
  group_name = "";
  description = none;
}

abbrev pub channel : PaymentChannel
channel = record {
  created_at = 0;
  updated_at = 0;
  id = 1;
  name = "";
  provider = "stripe";
  channel_code = "";
  currency = "CNY";
  config = "";
  secret_config = none;
  notify_url = none;
  return_url = none;
  enabled = true;
  sort_order = 0;
  description = none;
  tenant_id = some 5;
  created_by = none;
  updated_by = none;
}

abbrev pub unused_channel : PaymentChannel
unused_channel = record {
  created_at = 0;
  updated_at = 0;
  id = 2;
  name = "";
  provider = "stripe";
  channel_code = "";
  currency = "CNY";
  config = "";
  secret_config = none;
  notify_url = none;
  return_url = none;
  enabled = true;
  sort_order = 0;
  description = none;
  tenant_id = some 5;
  created_by = none;
  updated_by = none;
}

abbrev pub paid : PaymentOrder
paid = record {
  created_at = 0;
  updated_at = 0;
  id = 1;
  order_no = "PAY1";
  merchant_order_no = none;
  subject = "";
  body = none;
  amount = "100.00";
  currency = "";
  provider = "";
  status = "paid";
  paid_at = none;
  expired_at = none;
  client_ip = none;
  payer_id = none;
  trade_no = none;
  metadata = none;
  tenant_id = some 5;
  channel_id = some 1;
  created_by = some 2;
}

abbrev pub cancelled : PaymentOrder
cancelled = record {
  created_at = 0;
  updated_at = 0;
  id = 2;
  order_no = "PAY2";
  merchant_order_no = none;
  subject = "";
  body = none;
  amount = "7.50";
  currency = "";
  provider = "";
  status = "cancelled";
  paid_at = none;
  expired_at = none;
  client_ip = none;
  payer_id = none;
  trade_no = none;
  metadata = none;
  tenant_id = none;
  channel_id = some 1;
  created_by = none;
}

abbrev pub pending : PaymentOrder
pending = record {
  created_at = 0;
  updated_at = 0;
  id = 3;
  order_no = "PAY3";
  merchant_order_no = none;
  subject = "";
  body = none;
  amount = "2.00";
  currency = "";
  provider = "";
  status = "pending";
  paid_at = none;
  expired_at = none;
  client_ip = none;
  payer_id = none;
  trade_no = none;
  metadata = none;
  tenant_id = some 5;
  channel_id = none;
  created_by = none;
}

abbrev pub refund : PaymentRefund
refund = record {
  created_at = 0;
  updated_at = 0;
  id = 1;
  refund_no = "REF1";
  amount = "30.00";
  reason = none;
  status = "approved";
  provider_refund_no = none;
  reviewed_at = none;
  metadata = none;
  tenant_id = some 5;
  payment_order_id = 1;
  requested_by = none;
  reviewed_by = none;
}

abbrev pub rejected : PaymentRefund
rejected = record {
  created_at = 0;
  updated_at = 0;
  id = 2;
  refund_no = "REF2";
  amount = "99.99";
  reason = none;
  status = "rejected";
  provider_refund_no = none;
  reviewed_at = none;
  metadata = none;
  tenant_id = some 5;
  payment_order_id = 1;
  requested_by = none;
  reviewed_by = none;
}

abbrev pub callback : PaymentCallback
callback = record {
  created_at = 0;
  updated_at = 0;
  id = 1;
  provider = "";
  event_type = "";
  trade_no = none;
  payload = "";
  signature = none;
  verified = true;
  processed = true;
  error_message = none;
  tenant_id = none;
  payment_order_id = some 2;
}

abbrev pub work_order : WorkOrder
work_order = record {
  created_at = 0;
  updated_at = 0;
  id = 1;
  order_no = "WO1";
  title = "";
  description = "";
  category = none;
  priority = "";
  status = "resolved";
  source = "";
  tenant_id = none;
  creator_id = some 2;
  assignee_id = none;
  assigned_at = none;
  resolved_at = none;
  closed_at = none;
  due_at = none;
  last_comment_at = none;
  metadata = none;
}

abbrev pub comment : WorkOrderComment
comment = record {
  created_at = 0;
  updated_at = 0;
  id = 1;
  tenant_id = none;
  work_order_id = 1;
  author_id = none;
  body = "";
  comment_type = "";
  from_status = none;
  to_status = none;
  metadata = none;
}

abbrev pub attachment : WorkOrderAttachment
attachment = record {
  created_at = 0;
  updated_at = 0;
  id = 1;
  tenant_id = none;
  work_order_id = 1;
  upload_file_id = 9;
  uploaded_by_id = none;
  description = none;
}

abbrev pub login_rule : RateLimitRule
login_rule = record {
  created_at = 0;
  updated_at = 0;
  id = 7;
  name = "";
  scope = "";
  path_pattern = "/api/auth/*";
  method = some "POST";
  limit_count = pos 2;
  window_seconds = pos 60;
  enabled = true;
  description = none;
}

abbrev pub session : RefreshToken
session = record {
  created_at = 0;
  updated_at = 0;
  id = 1;
  token_hash = "digest:old";
  expires_at = 100;
  revoked_at = none;
  created_by_ip = none;
  user_agent = none;
  user_id = 1;
}

abbrev pub office : Department
office = record {
  created_at = 0;
  updated_at = 0;
  id = 1;
  tenant_id = 5;
  parent_id = none;
  name = "";
  code = "";
  description = none;
  sort_order = 0;
  enabled = true;
  is_system = true;
}

abbrev pub tenant : Tenant
tenant = record {
  created_at = 0;
  updated_at = 0;
  id = 5;
  name = "";
  code = "";
  description = none;
  enabled = true;
  is_system = true;
  departments_enabled = true;
}

abbrev pub tables : World memory
tables = record {
  users = admin ∷ clerk ∷ guest ∷ [];
  user_roles =
      (record { created_at = 0; updated_at = 0; user_id = 1; role_id = 1 })
      ∷ (record { created_at = 0; updated_at = 0; user_id = 2; role_id = 2 })
      ∷ [];
  roles = admin_role ∷ clerk_role ∷ [];
  permissions = listing ∷ [];
  role_permissions =
      (record { created_at = 0; updated_at = 0; role_id = 2; permission_id = 4 }) ∷ [];
  role_data_scopes =
      (record { created_at = 0; updated_at = 0; role_id = 2; data_scope_id = 1 }) ∷ [];
  data_scopes =
      (record {
        created_at = 0;
        updated_at = 0;
        id = 1;
        name = "";
        code = "tenant";
        rule = none;
        description = none;
      })
      ∷ [];
  user_departments =
      (record { created_at = 0; updated_at = 0; user_id = 1; department_id = 1; is_primary = true })
      ∷ [];
  menus = [];
  role_menus = [];
  upload_files = [];
  work_orders = work_order ∷ [];
  work_order_comments = comment ∷ [];
  work_order_assignments = [];
  work_order_attachments = attachment ∷ [];
  payment_channels = channel ∷ unused_channel ∷ [];
  payment_orders = paid ∷ cancelled ∷ pending ∷ [];
  payment_callbacks = [];
  payment_refunds = refund ∷ rejected ∷ [];
  rate_limit_rules = login_rule ∷ [];
  rate_limit_events = [];
  system_settings = [];
  refresh_tokens = session ∷ [];
  operation_logs = [];
  departments = office ∷ [];
  tenants = tenant ∷ [];
}

-- a list of one row
pub only_one : {A : Type 0} (x : A) {a : A} → Memᴰ a (x ∷ []) → a ≡ x
only_one x (Memᴰ.head e) = e
only_one x (Memᴰ.tail m) = elim m [ ]

pub tables-UniqueCodes : UniqueCodes tables
unfolding all_rows
tables-UniqueCodes = record {
  same = λ p q m n e. ap (λ x. x.id) (only_one listing m ∙ sym (only_one listing n));
}

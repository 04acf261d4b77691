-- ===== src/World/Slots.antt =====
-- Where each table stands among the others. A link table has a compound key in the source and is
-- never found by key here: its slot has a constant key.
use rust_template.Base.{refl}
use rust_template.Db.Interface.{Database}
use rust_template.Db.Rows.{Slot}
use rust_template.Entities.Access.{
  User, UserRole, Role, Permission, RolePermission, RoleDataScope, DataScope, UserDepartment, Menu,
  RoleMenu,
}
use rust_template.Entities.Orders.{
  UploadFile, WorkOrder, WorkOrderComment, WorkOrderAssignment, WorkOrderAttachment,
}
use rust_template.Entities.Settings.{SystemSetting}
use rust_template.Entities.Sessions.{RefreshToken, OperationLog}
use rust_template.Entities.Places.{Department, Tenant}
use rust_template.Entities.Limits.{RateLimitRule, RateLimitEvent}
use rust_template.Entities.Payment.{PaymentChannel, PaymentOrder, PaymentCallback, PaymentRefund}
use rust_template.World.Tables.{World}

-- the handle `ctx.db` on one table
module _ {db : Database} where
  abbrev pub on_users : Slot db (World db) User
  on_users = record {
    key = λ r. r.id;
    get = λ w. w.users;
    put = λ t w. record w { users = t };
    get-put = λ t w. refl;
  }

  abbrev pub on_user_roles : Slot db (World db) UserRole
  on_user_roles = record {
    key = λ _. 0;
    get = λ w. w.user_roles;
    put = λ t w. record w { user_roles = t };
    get-put = λ t w. refl;
  }

  abbrev pub on_roles : Slot db (World db) Role
  on_roles = record {
    key = λ r. r.id;
    get = λ w. w.roles;
    put = λ t w. record w { roles = t };
    get-put = λ t w. refl;
  }

  abbrev pub on_permissions : Slot db (World db) Permission
  on_permissions = record {
    key = λ r. r.id;
    get = λ w. w.permissions;
    put = λ t w. record w { permissions = t };
    get-put = λ t w. refl;
  }

  abbrev pub on_role_permissions : Slot db (World db) RolePermission
  on_role_permissions = record {
    key = λ _. 0;
    get = λ w. w.role_permissions;
    put = λ t w. record w { role_permissions = t };
    get-put = λ t w. refl;
  }

  abbrev pub on_role_data_scopes : Slot db (World db) RoleDataScope
  on_role_data_scopes = record {
    key = λ _. 0;
    get = λ w. w.role_data_scopes;
    put = λ t w. record w { role_data_scopes = t };
    get-put = λ t w. refl;
  }

  abbrev pub on_data_scopes : Slot db (World db) DataScope
  on_data_scopes = record {
    key = λ r. r.id;
    get = λ w. w.data_scopes;
    put = λ t w. record w { data_scopes = t };
    get-put = λ t w. refl;
  }

  abbrev pub on_user_departments : Slot db (World db) UserDepartment
  on_user_departments = record {
    key = λ _. 0;
    get = λ w. w.user_departments;
    put = λ t w. record w { user_departments = t };
    get-put = λ t w. refl;
  }

  abbrev pub on_menus : Slot db (World db) Menu
  on_menus = record {
    key = λ r. r.id;
    get = λ w. w.menus;
    put = λ t w. record w { menus = t };
    get-put = λ t w. refl;
  }

  abbrev pub on_role_menus : Slot db (World db) RoleMenu
  on_role_menus = record {
    key = λ _. 0;
    get = λ w. w.role_menus;
    put = λ t w. record w { role_menus = t };
    get-put = λ t w. refl;
  }

  abbrev pub on_upload_files : Slot db (World db) UploadFile
  on_upload_files = record {
    key = λ r. r.id;
    get = λ w. w.upload_files;
    put = λ t w. record w { upload_files = t };
    get-put = λ t w. refl;
  }

  abbrev pub on_work_orders : Slot db (World db) WorkOrder
  on_work_orders = record {
    key = λ r. r.id;
    get = λ w. w.work_orders;
    put = λ t w. record w { work_orders = t };
    get-put = λ t w. refl;
  }

  abbrev pub on_work_order_comments : Slot db (World db) WorkOrderComment
  on_work_order_comments = record {
    key = λ r. r.id;
    get = λ w. w.work_order_comments;
    put = λ t w. record w { work_order_comments = t };
    get-put = λ t w. refl;
  }

  abbrev pub on_work_order_assignments : Slot db (World db) WorkOrderAssignment
  on_work_order_assignments = record {
    key = λ r. r.id;
    get = λ w. w.work_order_assignments;
    put = λ t w. record w { work_order_assignments = t };
    get-put = λ t w. refl;
  }

  abbrev pub on_work_order_attachments : Slot db (World db) WorkOrderAttachment
  on_work_order_attachments = record {
    key = λ r. r.id;
    get = λ w. w.work_order_attachments;
    put = λ t w. record w { work_order_attachments = t };
    get-put = λ t w. refl;
  }

  abbrev pub on_payment_channels : Slot db (World db) PaymentChannel
  on_payment_channels = record {
    key = λ r. r.id;
    get = λ w. w.payment_channels;
    put = λ t w. record w { payment_channels = t };
    get-put = λ t w. refl;
  }

  abbrev pub on_payment_orders : Slot db (World db) PaymentOrder
  on_payment_orders = record {
    key = λ r. r.id;
    get = λ w. w.payment_orders;
    put = λ t w. record w { payment_orders = t };
    get-put = λ t w. refl;
  }

  abbrev pub on_payment_callbacks : Slot db (World db) PaymentCallback
  on_payment_callbacks = record {
    key = λ r. r.id;
    get = λ w. w.payment_callbacks;
    put = λ t w. record w { payment_callbacks = t };
    get-put = λ t w. refl;
  }

  abbrev pub on_payment_refunds : Slot db (World db) PaymentRefund
  on_payment_refunds = record {
    key = λ r. r.id;
    get = λ w. w.payment_refunds;
    put = λ t w. record w { payment_refunds = t };
    get-put = λ t w. refl;
  }

  abbrev pub on_rate_limit_rules : Slot db (World db) RateLimitRule
  on_rate_limit_rules = record {
    key = λ r. r.id;
    get = λ w. w.rate_limit_rules;
    put = λ t w. record w { rate_limit_rules = t };
    get-put = λ t w. refl;
  }

  abbrev pub on_rate_limit_events : Slot db (World db) RateLimitEvent
  on_rate_limit_events = record {
    key = λ r. r.id;
    get = λ w. w.rate_limit_events;
    put = λ t w. record w { rate_limit_events = t };
    get-put = λ t w. refl;
  }

  abbrev pub on_system_settings : Slot db (World db) SystemSetting
  on_system_settings = record {
    key = λ r. r.id;
    get = λ w. w.system_settings;
    put = λ t w. record w { system_settings = t };
    get-put = λ t w. refl;
  }

  abbrev pub on_refresh_tokens : Slot db (World db) RefreshToken
  on_refresh_tokens = record {
    key = λ r. r.id;
    get = λ w. w.refresh_tokens;
    put = λ t w. record w { refresh_tokens = t };
    get-put = λ t w. refl;
  }

  abbrev pub on_operation_logs : Slot db (World db) OperationLog
  on_operation_logs = record {
    key = λ r. r.id;
    get = λ w. w.operation_logs;
    put = λ t w. record w { operation_logs = t };
    get-put = λ t w. refl;
  }

  abbrev pub on_departments : Slot db (World db) Department
  on_departments = record {
    key = λ r. r.id;
    get = λ w. w.departments;
    put = λ t w. record w { departments = t };
    get-put = λ t w. refl;
  }

  abbrev pub on_tenants : Slot db (World db) Tenant
  on_tenants = record {
    key = λ r. r.id;
    get = λ w. w.tenants;
    put = λ t w. record w { tenants = t };
    get-put = λ t w. refl;
  }

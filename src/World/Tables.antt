-- ===== src/World/Tables.antt =====
-- The tables of the database that the modelled handlers use.
use rust_template.Db.Interface.{Database}
use rust_template.Entities.Access.{
  User, UserRole, Role, Permission, RolePermission, RoleDataScope, DataScope, UserDepartment, Menu,
  RoleMenu,
}
use rust_template.Entities.Orders.{
  UploadFile, WorkOrder, WorkOrderComment, WorkOrderAssignment, WorkOrderAttachment,
}
use rust_template.Entities.Settings.{SystemSetting}
use rust_template.Entities.Sessions.{RefreshToken, OperationLog}
use rust_template.Entities.Places.{Department, Tenant}
use rust_template.Entities.Limits.{RateLimitRule, RateLimitEvent}
use rust_template.Entities.Payment.{PaymentChannel, PaymentOrder, PaymentCallback, PaymentRefund}

pub record World (db : Database) : Type 0 where
  pub users : db.Table User
  pub user_roles : db.Table UserRole
  pub roles : db.Table Role
  pub permissions : db.Table Permission
  pub role_permissions : db.Table RolePermission
  pub role_data_scopes : db.Table RoleDataScope
  pub data_scopes : db.Table DataScope
  pub user_departments : db.Table UserDepartment
  pub menus : db.Table Menu
  pub role_menus : db.Table RoleMenu
  pub upload_files : db.Table UploadFile
  pub work_orders : db.Table WorkOrder
  pub work_order_comments : db.Table WorkOrderComment
  pub work_order_assignments : db.Table WorkOrderAssignment
  pub work_order_attachments : db.Table WorkOrderAttachment
  pub payment_channels : db.Table PaymentChannel
  pub payment_orders : db.Table PaymentOrder
  pub payment_callbacks : db.Table PaymentCallback
  pub payment_refunds : db.Table PaymentRefund
  pub rate_limit_rules : db.Table RateLimitRule
  pub rate_limit_events : db.Table RateLimitEvent
  pub system_settings : db.Table SystemSetting
  pub refresh_tokens : db.Table RefreshToken
  pub operation_logs : db.Table OperationLog
  pub departments : db.Table Department
  pub tenants : db.Table Tenant

-- ===== src/Auth/Logs.antt =====
-- `record` of src/models/admin_logs.rs: one row of the operation log. An error of the insert is
-- logged and goes no further.
use rust_template.Base.{ℕ, String, not, Option, none, some, if◌then◌else◌}
use rust_template.Env.{Env}
use rust_template.Db.Interface.{Database}
use rust_template.Db.Handler.{Handler, attempt, pure, ◌>>=◌}
use rust_template.Db.Rows.{insert}
use rust_template.Entities.Sessions.{OperationLog}
use rust_template.World.{World, on_operation_logs}
use rust_template.Auth.Secrets.{AuditRequest, Secrets}

-- `struct LogInput`
pub record LogInput : Type 0 where
  pub log_type : String
  pub level : String
  pub log_module : String
  pub action : String
  pub message : String
  pub user_id : Option ℕ
  pub operator : Option String
  pub method : Option String
  pub path : Option String
  pub status : Option ℕ
  pub error_message : Option String

module _ (env : Env) (input : LogInput) where
  -- the row, with what is known of the request
  unfoldable pub log_of : Option String → Option String → Option ℕ → ℕ → OperationLog
  log_of ip user_agent duration_ms id = record {
    created_at = env.now;
    updated_at = env.now;
    id = id;
    trace_id = none;
    log_type = input.log_type;
    level = input.level;
    log_module = input.log_module;
    action = input.action;
    message = input.message;
    method = input.method;
    path = input.path;
    status = input.status;
    duration_ms = duration_ms;
    ip = ip;
    user_agent = user_agent;
    operator = input.operator;
    request_summary = none;
    response_summary = none;
    error_message = input.error_message;
    user_id = input.user_id;
  }

  module _ {db : Database} where
    unfoldable pub write_log : Option AuditRequest → Handler (World db) (Unit {0})
    unfolding log_of
    write_log none = do
      written ← attempt (insert on_operation_logs (log_of none none none))
      pure tt
    write_log (some request) = if not request.enabled then pure tt else (do
      written ←
          attempt (
            insert on_operation_logs (log_of request.ip request.user_agent (some request.duration)))
      pure tt)

-- `admin_logs::record`
unfoldable pub record_log :
    {db : Database} → Env → Secrets → LogInput → Handler (World db) (Unit {0})
unfolding write_log
record_log env secrets input = write_log env input secrets.audit

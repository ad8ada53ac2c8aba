-- ===== src/Middleware/Logging.antt =====
-- `LoggingMiddleware` of worker_template/middleware/logging_mw.py.
use worker_template.Prelude.{String, Option, none, some, List, [], ◌∷◌, ◌++◌, if◌then◌else◌}
use worker_template.Message.{TaskiqMessage, TaskiqResult, TaskException}
use worker_template.StateTracking.Handlers.{error_text}
use worker_template.Middleware.Context.{Context, set_task_context, clear_task_context}

-- A record of the log with its `extra`: the message's id and name take the place of the context's.
pub record LogRecord : Type 0 where
  pub level : String
  pub event : String
  pub task_id : String
  pub task_name : String
  pub tenant_id : Option String
  pub detail : Option String

abbrev pub record_of : String → String → TaskiqMessage → Option String → Context → LogRecord
record_of level event message detail c = record {
  level = level;
  event = event;
  task_id = message.task_id;
  task_name = message.task_name;
  tenant_id = c.logged_tenant_id;
  detail = detail;
}

-- The context variables, and what was logged.
pub record Scope : Type 0 where
  pub context : Context
  pub logs : List LogRecord

abbrev pub log : LogRecord → Scope → Scope
log r s = record s { logs = s.logs ++ r ∷ [] }

unfoldable pub logging_pre_execute : TaskiqMessage → Scope → Scope
logging_pre_execute message s =
    let c = set_task_context (some message.task_id) none (some message.task_name) s.context in
    log (record_of "INFO" "task_started" message none c) (record s { context = c })

unfoldable pub logging_post_execute : TaskiqMessage → TaskiqResult → Scope → Scope
logging_post_execute message result s =
    log
      (if result.is_err
        then record_of "ERROR" "task_error" message (some (error_text result.error)) s.context
        else record_of "INFO" "task_completed" message none s.context)
      s

unfoldable pub logging_on_error : TaskiqMessage → TaskException → Scope → Scope
logging_on_error message raised_error s =
    let logged =
      log (record_of "ERROR" "task_exception" message (some raised_error.type_name) s.context) s in
    record logged { context = clear_task_context logged.context }

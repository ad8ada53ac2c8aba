-- ===== src/Middleware/Stack.antt =====
-- The order of worker_template/middleware/__init__.py, for the two middlewares that use the context
-- variables: `pre_execute` runs from top to bottom, and the other hooks from bottom to top. The
-- metrics and state tracking stand below them and leave the context variables alone.
pub mod Logged
use worker_template.Prelude.{
  String, ◌≡◌, refl, Option, none, some, List, [], ◌∷◌, ◌++◌, keep_or, true, false, if◌then◌else◌,
}
use mathlib.Core.List.{append_assoc}
use worker_template.Models.{Uuid}
use worker_template.Message.{TaskiqMessage, TaskiqResult, TaskException}
use worker_template.World.{Env}
use worker_template.StateTracking.Handlers.{error_text}
use worker_template.Middleware.Context.{
  Context, set_task_context, clear_task_context, set_tenant_id, clear_tenant_id,
}
use worker_template.Middleware.Logging.{
  LogRecord, record_of, Scope, log, logging_pre_execute, logging_post_execute, logging_on_error,
}
use worker_template.Middleware.Tenant.{
  tenant_of_kwargs, set_tenant, tenant_pre_execute, tenant_post_execute, tenant_on_error,
}

abbrev pub in_context : (Context → Context) → Scope → Scope
in_context f s = record s { context = f s.context }

abbrev pub stack_pre_execute : Env → TaskiqMessage → Scope → Scope
stack_pre_execute env message s =
    in_context (tenant_pre_execute env message) (logging_pre_execute message s)

abbrev pub stack_post_execute : TaskiqMessage → TaskiqResult → Scope → Scope
stack_post_execute message result s =
    logging_post_execute message result (in_context tenant_post_execute s)

abbrev pub stack_on_error : TaskiqMessage → TaskException → Scope → Scope
stack_on_error message raised_error s =
    logging_on_error message raised_error (in_context tenant_on_error s)

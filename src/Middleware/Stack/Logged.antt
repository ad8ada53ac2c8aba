-- ===== src/Middleware/Stack/Logged.antt =====
-- What the middlewares log of a task, and what they leave in the context variables.
use worker_template.Prelude.{
  String, ◌≡◌, refl, ◌∙◌, Option, none, some, List, [], ◌∷◌, ◌++◌, keep_or, true, false,
}
use mathlib.Core.List.{append_assoc}
use worker_template.Models.{Uuid}
use worker_template.Message.{TaskiqMessage, TaskiqResult, TaskException}
use worker_template.World.{Env}
use worker_template.StateTracking.Handlers.{error_text}
use worker_template.Middleware.Context.{
  set_task_context, clear_task_context, set_tenant_id, clear_tenant_id,
}
use worker_template.Middleware.Logging.{
  LogRecord, Scope, logging_pre_execute, logging_post_execute, logging_on_error,
}
use worker_template.Middleware.Stack.{stack_pre_execute, stack_post_execute, stack_on_error}
use worker_template.Middleware.Tenant.{
  tenant_of_kwargs, tenant_pre_execute, tenant_post_execute, tenant_on_error,
}

append_three :
    {A : Type 0} (l : List A) (a b c : A)
    → ((l ++ a ∷ []) ++ b ∷ []) ++ c ∷ [] ≡ l ++ a ∷ b ∷ c ∷ []
append_three l a b c =
    append_assoc (l ++ a ∷ []) (b ∷ []) (c ∷ []) ∙ append_assoc l (a ∷ []) (b ∷ c ∷ [])

-- The tenant that the log names for the message.
abbrev pub tenant_text : Env → Option Uuid → Option String
tenant_text env none = none
tenant_text env (some tenant_id) = some (env.uuid_text tenant_id)

-- A record of the message that names a tenant.
abbrev pub named : String → String → TaskiqMessage → Option String → Option String → LogRecord
named level event message detail tenant = record {
  level = level;
  event = event;
  task_id = message.task_id;
  task_name = message.task_name;
  tenant_id = tenant;
  detail = detail;
}

-- What a task that succeeds has logged and left.
pub record IsLoggedSuccess (message : TaskiqMessage) (tenant : Option String) (s s' : Scope)
    : Type 0 where
  pub logs :
      s'.logs
      ≡ s.logs
        ++ named "INFO" "task_started" message none s.context.logged_tenant_id
          ∷ named "INFO" "task_completed" message none (keep_or tenant s.context.logged_tenant_id)
          ∷ []
  pub context : s'.context ≡ record {
    task_id = some message.task_id;
    logged_tenant_id = keep_or tenant s.context.logged_tenant_id;
    task_name = some message.task_name;
    tenant_id = none;
  }

-- What a task that raises has logged and left.
pub record IsLoggedFailure (message : TaskiqMessage) (raised_error : TaskException)
    (result : TaskiqResult) (tenant : Option String) (s s' : Scope) : Type 0 where
  pub logs :
      s'.logs
      ≡ s.logs
        ++ named "INFO" "task_started" message none s.context.logged_tenant_id
          ∷ named "ERROR" "task_exception" message
              (some raised_error.type_name)
              (keep_or tenant s.context.logged_tenant_id)
          ∷ named "ERROR" "task_error" message (some (error_text result.error)) none
          ∷ []
  pub context :
      s'.context
      ≡ record { task_id = none; logged_tenant_id = none; task_name = none; tenant_id = none }

module _ (env : Env) where
  success_logs :
      (message : TaskiqMessage) (result : TaskiqResult) (tenant : Option Uuid) (s : Scope)
      → result.is_err ≡ false
      → tenant_of_kwargs env message.kwargs ≡ tenant
      → IsLoggedSuccess message
          (tenant_text env tenant)
          s
          (stack_post_execute message result (stack_pre_execute env message s))
  unfolding logging_pre_execute logging_post_execute tenant_pre_execute tenant_post_execute
      set_task_context set_tenant_id clear_tenant_id
  success_logs message result none s fine e =
      simp (e, fine) (record { logs = append_assoc s.logs _ _; context = refl })
  success_logs message result (some tenant_id) s fine e =
      simp (e, fine) (record { logs = append_assoc s.logs _ _; context = refl })

  failure_logs :
      (message : TaskiqMessage) (raised_error : TaskException) (result : TaskiqResult)
      (tenant : Option Uuid) (s : Scope)
      → result.is_err ≡ true
      → tenant_of_kwargs env message.kwargs ≡ tenant
      → IsLoggedFailure message raised_error result (tenant_text env tenant) s (
          stack_post_execute message result
            (stack_on_error message raised_error (stack_pre_execute env message s)))
  unfolding logging_pre_execute logging_post_execute logging_on_error tenant_pre_execute
      tenant_post_execute tenant_on_error set_task_context clear_task_context set_tenant_id
      clear_tenant_id
  failure_logs message raised_error result none s wrong e =
      simp (e, wrong) (record { logs = append_three s.logs _ _ _; context = refl })
  failure_logs message raised_error result (some tenant_id) s wrong e =
      simp (e, wrong) (record { logs = append_three s.logs _ _ _; context = refl })

-- A task that succeeds: `task_started` names the tenant that the log named before, and
-- `task_completed` the tenant of the message's keyword arguments, or else the former; the variables of
-- the log keep the message's id and name and that tenant, and the tenant of the task is cleared.
pub stack-IsLoggedSuccess :
    (env : Env) (message : TaskiqMessage) (result : TaskiqResult) (s : Scope)
    → result.is_err ≡ false
    → IsLoggedSuccess message
        (tenant_text env (tenant_of_kwargs env message.kwargs))
        s
        (stack_post_execute message result (stack_pre_execute env message s))
stack-IsLoggedSuccess env message result s fine =
    success_logs env message result (tenant_of_kwargs env message.kwargs) s fine refl

-- A task that raises, where `post_execute` runs after `on_error`: `task_exception` names the tenant of
-- the message, `task_error` names none, and all variables are cleared.
pub stack-IsLoggedFailure :
    (env : Env) (message : TaskiqMessage) (raised_error : TaskException) (result : TaskiqResult)
    (s : Scope)
    → result.is_err ≡ true
    → IsLoggedFailure message raised_error result
        (tenant_text env (tenant_of_kwargs env message.kwargs))
        s
        (stack_post_execute message result
          (stack_on_error message raised_error (stack_pre_execute env message s)))
stack-IsLoggedFailure env message raised_error result s wrong =
    failure_logs env message raised_error result (tenant_of_kwargs env message.kwargs) s wrong refl

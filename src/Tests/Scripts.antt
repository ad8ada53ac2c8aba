-- ===== src/Tests/Scripts.antt =====
-- Examples: the script of the template, and what the middlewares log.
use worker_template.Prelude.{◌≡◌, refl, true, false, none, some, [], ◌∷◌, map}
use worker_template.Exec.{ok}
use worker_template.Message.{plain, field, end, lookup}
use worker_template.Services.TaskExecutionService.Updates.{or_else}
use worker_template.PostGeneration.{
  Project, called_process, other_error, done, raises, is_shell_script, undotted, ends_with_sh, main,
}
use worker_template.PostGeneration.Kept.{main-IsKept}
use worker_template.PostGeneration.Untouched.{IsKept}
use worker_template.PostGeneration.Ended.{main_twice}
use worker_template.Middleware.Logging.{Scope}
use worker_template.Middleware.Tenant.{tenant_of_kwargs}
use worker_template.Middleware.Stack.{stack_pre_execute, stack_post_execute, stack_on_error}
use worker_template.Middleware.Stack.Logged.{
  tenant_text, IsLoggedSuccess, IsLoggedFailure, stack-IsLoggedSuccess, stack-IsLoggedFailure,
}
use worker_template.Middleware.LogContext.{
  get_logging_context, given_value, log_with_context, log_with_context-lookup,
}
use worker_template.Tests.Fixtures.{env, message, boom, failed_result}

-- A new project with two shell scripts, where the first call and the third one fail.
abbrev project : Project
project = record {
  scripts = some (
      record { name = "build.sh"; mode = 420 }
      ∷ record { name = "run.sh"; mode = 420 }
      ∷ record { name = ".sh"; mode = 420 }
      ∷ []);
  env_example = some "DATABASE_URL=";
  env_file = none;
  uv_path = some "/usr/bin/uv";
  synced = false;
  printed = [];
  schedule = raises (other_error "read-only") ∷ done ∷ raises (called_process "exit 1" "") ∷ [];
}

abbrev calm_project : Project
calm_project = record project { schedule = [] }

-- A name of dots and a suffix has no suffix of its own.
shell_scripts :
    map is_shell_script ("a.sh" ∷ ".a.sh" ∷ ".sh" ∷ "..sh" ∷ "a.sh.txt" ∷ [])
    ≡ true ∷ true ∷ false ∷ false ∷ false ∷ []
unfolding undotted ends_with_sh
shell_scripts = refl

main-IsKept_example : IsKept project (main project).1
main-IsKept_example = main-IsKept project

main_twice_example :
    ((main calm_project).0 ≡ ok 0)
    × ((main calm_project).1.env_file ≡ or_else none (some "DATABASE_URL="))
    × ((main calm_project).1.env_example ≡ some "DATABASE_URL=")
    × ((main (main calm_project).1).0 ≡ ok 0)
    × ((main (main calm_project).1).1.env_file ≡ (main calm_project).1.env_file)
main_twice_example = main_twice calm_project refl

-- The variables as a task of the tenant 4 has left them.
abbrev scope : Scope
scope = record {
  context = record {
    task_id = some "m-0";
    logged_tenant_id = some "4";
    task_name = some "export";
    tenant_id = none;
  };
  logs = [];
}

stack-IsLoggedSuccess_example :
    IsLoggedSuccess message (tenant_text env (tenant_of_kwargs env message.kwargs)) scope (
      stack_post_execute message
        (record failed_result { is_err = false })
        (stack_pre_execute env message scope))
stack-IsLoggedSuccess_example =
    stack-IsLoggedSuccess env message (record failed_result { is_err = false }) scope refl

stack-IsLoggedFailure_example :
    IsLoggedFailure message boom failed_result
      (tenant_text env (tenant_of_kwargs env message.kwargs))
      scope
      (stack_post_execute message failed_result
        (stack_on_error message boom (stack_pre_execute env message scope)))
stack-IsLoggedFailure_example = stack-IsLoggedFailure env message boom failed_result scope refl

log_with_context-lookup_example :
    let extra = some (field "task_id" (plain "other") end) in
    let call = log_with_context scope.context 20 "hello" extra in
    (lookup "task_id" call.extra
      ≡ or_else
          (given_value "task_id" extra)
          (lookup "task_id" (get_logging_context scope.context)))
    × (call.level ≡ 20)
    × (call.message ≡ "hello")
log_with_context-lookup_example =
    log_with_context-lookup scope.context 20 "hello" (some (field "task_id" (plain "other") end))
      "task_id"

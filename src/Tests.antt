-- ===== src/Tests.antt =====
-- Examples: the theorems at concrete inputs, and runs of the operations.
mod Fixtures
mod Parts
mod Messages
mod Receivers
mod Dispatches
mod Deliveries
mod Wiring
mod Schemas
mod Scripts
use worker_template.Prelude.{
  ℕ, suc, ◌+◌, ◌≤◌, ◌<◌, String, ◌≡◌, refl, ◌↔◌, ◌⊎◌, inl, inr, Bool, true, false, Option, none,
  some, List, [], ◌∷◌, ◌++◌, arith, All, filter,
}
use worker_template.Exec.{ok, err, operational, failure}
use worker_template.Models.{
  Uuid, TaskStatus, running, retrying, failed, completed, TaskExecution, is_open, is_terminal,
}
use worker_template.Message.{uuid, field, end, TaskiqMessage, lookup, no_result}
use worker_template.World.{Env, World, fine, fault, late}
use worker_template.Services.TaskExecutionService.{
  is_selected, StatusFields, apply_status, list_task_executions,
}
use worker_template.Services.TaskExecutionService.Updates.{
  Update, apply_all, retries, first_run, last_end, last_status, or_else, apply_all-history,
}
use worker_template.Services.TaskExecutionService.Listing.{Lists, list_task_executions-Lists}
use worker_template.Services.TaskAttemptService.{is_pending_attempt, is_open_attempt}
use worker_template.StateTracking.Extract.{
  label, raw_entry, parse_uuid, candidates, first_parsed, extract_task_execution_id,
}
use worker_template.StateTracking.Gate.{allowlist, retry_gate_allows}
use worker_template.StateTracking.Gate.Allowed.{IsListed, retry_gate_allows_iff}
use worker_template.StateTracking.Events.{emit_status_event}
use worker_template.StateTracking.Announcement.{expected_emission}
use worker_template.StateTracking.Emission.{IsEmission, emit_status_event-IsEmission}
use worker_template.StateTracking.Handlers.{on_error, post_execute, error_detail_of}
use worker_template.StateTracking.Decision.{retrying_message}
use worker_template.StateTracking.Lifecycle.{pre, post, error, run_hooks}
use worker_template.StateTracking.Sound.Rows.{InBudget, IsSound}
use worker_template.StateTracking.Sound.Hooks.{run_hooks-IsSound}
use worker_template.StateTracking.Sends.Refused.{on_error_refused}
use worker_template.StateTracking.Sends.Count.{SentUpTo, on_error-SentUpTo}
use worker_template.StateTracking.Calm.Services.{calm}
use worker_template.StateTracking.Calm.Dispatch.{retried_task, pending_row}
use worker_template.StateTracking.Calm.OnError.{IsRetriable, IsRetried, on_error-IsRetried}
use worker_template.StateTracking.Flaky.LostReply.{lost_reply}
use worker_template.StateTracking.Flaky.LastRetry.{on_error_loses_last_retry}
use worker_template.Text.{strip, split_commas, contains, str_nat}
use worker_template.Config.{
  Settings, default_settings, in_bounds, new_settings, validate_rabbitmq_url, validate_redis_url,
  validate_config,
}
use worker_template.Config.Validated.{Reports, new_settings-validate_config}
use worker_template.Text.{starts_with}
use worker_template.Emitter.{safe_url, has_at, close_emitter}
use worker_template.Emitter.SafeUrl.{IsCut, safe_url-IsSafe}
use worker_template.Emitter.Closed.{IsClosed, close_emitter-emit_status_event}
use worker_template.ExampleTask.{Registry, dispatch_example_task}
use worker_template.ExampleTask.Tracked.{Dispatched, dispatch_example_task-Dispatched}
use worker_template.Middleware.Context.{Context}
use worker_template.Middleware.Tenant.{tenant_of_kwargs, tenant_pre_execute}
use worker_template.Middleware.Tenant.Agreement.{tenant_of_kwargs-extract_tenant_id}
use worker_template.Middleware.Metrics.{Metrics}
use worker_template.Middleware.Metrics.Drift.{
  Run, Adds, successes, failures, run_tasks, run_tasks-Adds,
}
use worker_template.StateTracking.Extract.{tenant_key, parse_given, extract_tenant_id}
use worker_template.Integer.{pos}
use worker_template.Tests.Fixtures.{
  first_world, last_world, flaky_world, named_7, gate_open_5, retry_of, env, message, boom,
  task_with, other_task, failed_result, world_with,
}

abbrev RetriableWith : ℕ → World → Type 0
RetriableWith n w = IsRetriable env message 7 (task_with n) w

first_IsRetriable : RetriableWith 0 first_world
unfolding is_open
first_IsRetriable = record {
  named = named_7;
  below = omega arith;
  gate = gate_open_5;
  found = refl;
  settled = refl;
  unopened = refl;
}

last_IsRetriable : RetriableWith 2 last_world
last_IsRetriable = record {
  named = named_7;
  below = omega arith;
  gate = gate_open_5;
  found = refl;
  settled = refl;
  unopened = refl;
}

run_hooks-IsSound_example :
    IsSound flaky_world.committed
      (run_hooks env
        (retry_of World)
        (pre message ∷ error message failed_result boom ∷ post message failed_result ∷ [])
        flaky_world).committed
run_hooks-IsSound_example =
    run_hooks-IsSound env (retry_of World)
      (pre message ∷ error message failed_result boom ∷ post message failed_result ∷ []) flaky_world
      (omega arith, (omega arith, tt))

on_error-IsRetried_example :
    IsRetried env message boom 7
      (task_with 0)
      first_world
      (on_error env (retry_of World) message boom (calm first_world))
on_error-IsRetried_example =
    on_error-IsRetried env (retry_of World) message boom 7 (task_with 0) first_world
      first_IsRetriable

on_error-SentUpTo_example :
    SentUpTo [] message 3 (on_error env (retry_of World) message boom flaky_world).1
on_error-SentUpTo_example = on_error-SentUpTo env (retry_of World) message boom flaky_world

-- Automatic retries are disabled.
abbrev disabled_env : Env
disabled_env = record env { settings = default_settings }

disabled_refuses :
    (tenant_id : Uuid) → retry_gate_allows disabled_env message.task_name tenant_id ≡ false
unfolding retry_gate_allows
disabled_refuses tenant_id = refl

on_error_refused_example :
    (on_error disabled_env (retry_of World) message boom flaky_world).1.sent ≡ []
on_error_refused_example =
    on_error_refused disabled_env (retry_of World) message boom flaky_world disabled_refuses

on_error_loses_last_retry_example :
    let (r, w') = on_error env (retry_of World) message boom (lost_reply last_world "closed") in
    (r ≡ ok tt)
    × (w'.sent ≡ [])
    × (w'.result ≡ failed_result)
    × (filter (is_selected 7 none) w'.committed.executions
        ≡ retried_task env 7 message (error_detail_of boom) (task_with 2) last_world ∷ [])
    × (w'.committed.attempts
        ≡ pending_row env 7 message (error_detail_of boom) (task_with 2) last_world ∷ [])
    × (w'.events
        ≡ expected_emission env message retrying
            (some (retrying_message (task_with 2)))
            (some (error_detail_of boom)))
on_error_loses_last_retry_example =
    on_error_loses_last_retry env (retry_of World) message boom 7 (task_with 2) last_world "closed"
      last_IsRetriable refl

emit_status_event-IsEmission_example :
    ((emit_status_event env message failed (some "Task failed") none first_world).0 ≡ ok tt)
    × IsEmission
        (expected_emission env message failed (some "Task failed") none)
        first_world
        (emit_status_event env message failed (some "Task failed") none first_world).1
emit_status_event-IsEmission_example =
    emit_status_event-IsEmission env message failed (some "Task failed") none first_world

-- ===== src/StateTracking/Recording.antt =====
-- `_record_initial_error_status`, `_dispatch_retry`, `_recover_dispatch_audit` and `_requeue` of
-- state_tracking.py.
use worker_template.Prelude.{
  ℕ, ◌+◌, String, Option, none, some, Bool, true, false, not, ◌&&◌, if◌then◌else◌,
}
use worker_template.Exec.{
  Error, operational, failure, Result, ok, err, pure, raise, gets, modify, ◌>>=◌, ◌>>◌,
}
use worker_template.Models.{
  Uuid, TaskStatus, TaskDispatchResult, retrying, failed, blocked, shadowed, dispatch_failed,
  TaskExecution, status_eq,
}
use worker_template.Message.{TaskiqMessage, no_result}
use worker_template.World.{Env, Worker, commit, kiq}
use worker_template.Services.TaskExecutionService.{StatusFields, update_task_status}
use worker_template.Services.TaskAttemptService.{mark_task_attempt_dispatched, record_task_attempt}
use worker_template.StateTracking.Decision.{ErrorContext, RetryDecision, number_or}

-- `_missing_retry_audit_error`
abbrev pub missing_retry_audit_error : String → Error
missing_retry_audit_error message = operational message

-- `task.tenant_id`, which raises where `task` is `None`.
unfoldable pub tenant_of : Option TaskExecution → Worker Uuid
tenant_of none = raise (failure "AttributeError")
tenant_of (some task) = pure task.tenant_id

abbrev pub error_fields : String → String → StatusFields
error_fields error_detail status_message = record {
  status_message = some status_message;
  error_detail = some error_detail;
  result_url = none;
  completed_steps = none;
}

abbrev pub expected_retry_count : Option TaskExecution → TaskStatus → Option ℕ
expected_retry_count none status = none
expected_retry_count (some task) status =
    some (if status_eq status retrying then task.retry_count + 1 else task.retry_count)

abbrev is_ok : Result (Unit {0}) → Bool
is_ok (ok _) = true
is_ok (err _) = false

-- `_requeue`: whether the broker took the message.
unfoldable pub requeue : TaskiqMessage → Worker Bool
requeue message w = let (r, w') = kiq message w in (ok (is_ok r), w')

unfoldable pub require_marked : Bool → String → Worker (Unit {0})
require_marked marked message =
    if marked then pure tt else raise (missing_retry_audit_error message)

-- `ctx.result.error = NoResultError()`
unfoldable pub set_no_result : Worker (Unit {0})
set_no_result = modify (λ w. record w { result = record w.result { error = some no_result } })

abbrev pub dispatch_error_message : String
dispatch_error_message = "Task failed (retry dispatch error)"

module _ (env : Env) where
  unfoldable pub record_attempt_of :
      ErrorContext → ℕ → TaskStatus → TaskStatus → TaskDispatchResult → Worker (Unit {0})
  record_attempt_of ctx attempt_number status_before status_after dispatch_result = do
    tenant_id ← tenant_of ctx.task
    record_task_attempt env (record {
      task_execution_id = ctx.task_execution_id;
      tenant_id = tenant_id;
      attempt_number = attempt_number;
      status_before = status_before;
      status_after = status_after;
      error_detail = some ctx.error_detail;
      dispatch_result = dispatch_result;
    })
    pure tt

  unfoldable pub record_decision : ErrorContext → RetryDecision → Worker (Unit {0})
  record_decision ctx decision =
      if decision.should_retry && not decision.retry_allowed
      then record_attempt_of ctx decision.attempt_number decision.status_before decision.status
          (if decision.retry_shadowed then shadowed else blocked)
      else if decision.retry_allowed
      then (do
        modify (λ w. record w {
          attempt = record w.attempt { attempt_number = some decision.attempt_number };
        })
        record_attempt_of ctx decision.attempt_number decision.status_before retrying
            TaskDispatchResult.pending)
      else pure tt

  unfoldable pub record_initial_error_status : ErrorContext → RetryDecision → Worker (Unit {0})
  record_initial_error_status ctx decision = do
    update_task_status env ctx.task_execution_id decision.status
        (error_fields ctx.error_detail decision.status_msg)
    modify (λ w. record w {
      attempt = record w.attempt {
        recorded_status = some decision.status;
        recorded_retry_count = expected_retry_count ctx.task decision.status;
        status_message = some decision.status_msg;
      };
    })
    record_decision ctx decision

  unfoldable pub after_requeue : ErrorContext → RetryDecision → Worker (TaskStatus × String)
  after_requeue ctx decision = do
    number ← gets (λ w. number_or w.attempt.attempt_number decision.attempt_number)
    marked ← mark_task_attempt_dispatched ctx.task_execution_id number
    require_marked marked "retry dispatch completed but its audit row was not found"
    commit
    set_no_result
    pure (decision.status, decision.status_msg)

  unfoldable pub after_dispatch_error : ErrorContext → RetryDecision → Worker (TaskStatus × String)
  after_dispatch_error ctx decision = do
    update_task_status env ctx.task_execution_id failed
        (error_fields ctx.error_detail dispatch_error_message)
    modify (λ w. record w {
      attempt = record w.attempt {
        recorded_status = some failed;
        status_message = some dispatch_error_message;
      };
    })
    record_attempt_of ctx decision.attempt_number retrying failed dispatch_failed
    commit
    pure (failed, dispatch_error_message)

  unfoldable pub dispatch_retry : ErrorContext → RetryDecision → Worker (TaskStatus × String)
  dispatch_retry ctx decision = do
    requeued ← requeue ctx.message
    if requeued then after_requeue ctx decision else after_dispatch_error ctx decision

  unfoldable pub recover_dispatch_audit : ErrorContext → ℕ → Worker (Unit {0})
  recover_dispatch_audit ctx attempt_number = do
    marked ← mark_task_attempt_dispatched ctx.task_execution_id attempt_number
    require_marked marked "retry dispatch recovery found no matching audit row"
    commit
    set_no_result

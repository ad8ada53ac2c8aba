-- ===== src/StateTracking/Handlers.antt =====
-- The hooks `pre_execute`, `post_execute` and `on_error` of `StateTrackingMiddleware`.
use worker_template.Prelude.{ℕ, String, Option, none, some, Bool, true, false, if◌then◌else◌}
use worker_template.Text.{◌+++◌}
use worker_template.Exec.{pure, raise, gets, modify, ◌>>=◌, ◌>>◌}
use worker_template.Models.{
  Uuid, TaskStatus, TaskAttempt, dispatched, running, completed, failed, TaskDispatchResult,
}
use worker_template.Message.{
  TaskiqMessage, TaskiqResult, TaskException, ResultError, no_result, raised,
}
use worker_template.World.{Env, World, Worker, OnErrorAttempt, with_session, commit}
use worker_template.Retry.{Tenacity, db_retry}
use worker_template.Services.TaskExecutionService.{
  StatusFields, get_task_execution, update_task_status,
}
use worker_template.Services.TaskAttemptService.{
  get_task_attempt_dispatch_state, get_latest_pending_task_attempt, mark_task_attempt_dispatched,
}
use worker_template.StateTracking.Extract.{extract_task_execution_id}
use worker_template.StateTracking.Events.{emit_status_event}
use worker_template.StateTracking.Decision.{
  ErrorContext, RetryDecision, resolve_retry_decision, number_or,
}
use worker_template.StateTracking.Recording.{
  missing_retry_audit_error, error_fields, record_initial_error_status, require_marked,
  dispatch_retry, recover_dispatch_audit,
}

abbrev pub message_fields : String → StatusFields
message_fields status_message = record {
  status_message = some status_message;
  error_detail = none;
  result_url = none;
  completed_steps = none;
}

-- `str(result.error)`; a `NoResultError` has no text.
abbrev pub error_text : Option ResultError → String
error_text none = "None"
error_text (some no_result) = ""
error_text (some (raised text)) = text

-- `isinstance(result.error, NoResultError)`
abbrev pub is_no_result : Option ResultError → Bool
is_no_result (some no_result) = true
is_no_result _ = false

abbrev pub new_attempt : OnErrorAttempt
new_attempt = record {
  recorded_status = none;
  recorded_retry_count = none;
  status_message = none;
  attempt_number = none;
}

unfoldable pub mark_shadowed : RetryDecision → Worker (Unit {0})
mark_shadowed decision =
    if decision.retry_shadowed
    then modify (λ w. record w { result = record w.result { shadow_retry = true } })
    else pure tt

abbrev pub error_detail_of : TaskException → String
error_detail_of raised_error = raised_error.type_name +++ ": " +++ raised_error.text

-- An attempt left pending by an earlier delivery was sent, since its message is here.
unfoldable pub reconcile : Uuid → Option TaskAttempt → Worker (Unit {0})
reconcile task_execution_id none = pure tt
reconcile task_execution_id (some pending_attempt) = do
  marked ← mark_task_attempt_dispatched task_execution_id pending_attempt.attempt_number
  require_marked marked "retry dispatch reconciliation found no matching audit row"

module _ (env : Env) where
  -- The block of `async with`, and the event after it.
  unfoldable pub start_task : TaskiqMessage → Uuid → Worker TaskiqMessage
  start_task message task_execution_id = do
    with_session
        (update_task_status env task_execution_id running (message_fields "Task started") >> commit)
    emit_status_event env message running (some "Task started") none
    pure message

  unfoldable pub pre_body : TaskiqMessage → Option Uuid → Worker TaskiqMessage
  pre_body message none = pure message
  pre_body message (some task_execution_id) = start_task message task_execution_id

  unfoldable pub finish_task : TaskiqMessage → TaskiqResult → Uuid → Worker (Unit {0})
  finish_task message result task_execution_id =
      if result.is_err
      then (do
        with_session (do
          update_task_status env task_execution_id failed
              (error_fields (error_text result.error) "Task failed")
          commit)
        emit_status_event env message failed (some "Task failed") (some (error_text result.error)))
      else (do
        with_session (do
          update_task_status env task_execution_id completed
              (message_fields "Task completed successfully")
          commit)
        emit_status_event env message completed (some "Task completed successfully") none)

  unfoldable pub post_body : TaskiqMessage → Option Uuid → Worker (Unit {0})
  post_body message none = pure tt
  post_body message (some task_execution_id) = do
    result ← gets (λ w. w.result)
    if is_no_result result.error
        then pure tt
        else if result.shadow_retry
        then pure tt
        else finish_task message result task_execution_id

  -- What is done about an audit row whose dispatch had begun.
  unfoldable pub resume_from :
      ErrorContext → RetryDecision → ℕ → TaskDispatchResult → Worker (TaskStatus × String)
  resume_from ctx decision attempt_number dispatched =
      recover_dispatch_audit env ctx attempt_number >> pure (decision.status, decision.status_msg)
  resume_from ctx decision attempt_number _ = commit >> dispatch_retry env ctx decision

  -- The branch `retry_already_recorded`, by the audit row that it found.
  unfoldable pub resume_dispatch :
      ErrorContext → RetryDecision → Option TaskAttempt → Worker (TaskStatus × String)
  resume_dispatch ctx decision none =
      raise (missing_retry_audit_error "retry recovery found no matching audit row")
  resume_dispatch ctx decision (some recovered) =
      resume_from ctx decision recovered.attempt_number recovered.dispatch_result

  unfoldable pub first_dispatch : ErrorContext → RetryDecision → Worker (TaskStatus × String)
  first_dispatch ctx decision = do
    pending_attempt ← get_latest_pending_task_attempt ctx.task_execution_id
    reconcile ctx.task_execution_id pending_attempt
    record_initial_error_status env ctx decision
    commit
    dispatch_retry env ctx decision

  unfoldable pub handle_allowed : ErrorContext → RetryDecision → Worker (TaskStatus × String)
  handle_allowed ctx decision =
      if decision.retry_already_recorded
      then (do
        number ← gets (λ w. number_or w.attempt.attempt_number decision.attempt_number)
        recovered ← get_task_attempt_dispatch_state ctx.task_execution_id number
        resume_dispatch ctx decision recovered)
      else first_dispatch ctx decision

  unfoldable pub handle_refused : ErrorContext → RetryDecision → Worker (TaskStatus × String)
  handle_refused ctx decision =
      if decision.retry_already_recorded
      then commit >> pure (decision.status, decision.status_msg)
      else (do
        record_initial_error_status env ctx decision
        commit
        pure (decision.status, decision.status_msg))

  -- What the block of `async with` does once the task is loaded.
  unfoldable pub decide_and_record : ErrorContext → Worker (TaskStatus × String)
  decide_and_record ctx = do
    decision ← gets (λ w. resolve_retry_decision env ctx w.attempt)
    outcome ←
        (if decision.retry_allowed
          then handle_allowed ctx decision
          else handle_refused ctx decision)
    mark_shadowed decision
    pure outcome

  unfoldable pub record_in_session :
      TaskiqMessage → TaskException → Uuid → Worker (TaskStatus × String)
  record_in_session message raised_error task_execution_id = do
    task ← get_task_execution task_execution_id none
    decide_and_record (record {
      task = task;
      task_execution_id = task_execution_id;
      message = message;
      error_detail = error_detail_of raised_error;
    })

  unfoldable pub record_error_status : TaskiqMessage → TaskException → Uuid → Worker (Unit {0})
  record_error_status message raised_error task_execution_id = do
    outcome ← with_session (record_in_session message raised_error task_execution_id)
    emit_status_event env message outcome.0 (some outcome.1) (some (error_detail_of raised_error))

  unfoldable pub error_body :
      (Worker (Unit {0}) → Worker (Unit {0}))
      → TaskiqMessage
      → TaskException
      → Option Uuid
      → Worker (Unit {0})
  error_body retried message raised_error none = pure tt
  error_body retried message raised_error (some task_execution_id) = do
    modify (λ w. record w { attempt = new_attempt })
    retried (record_error_status message raised_error task_execution_id)

module _ (env : Env) (tenacity : Tenacity World) where
  unfoldable pub pre_execute : TaskiqMessage → Worker TaskiqMessage
  pre_execute message =
      db_retry tenacity (pre_body env message (extract_task_execution_id env message))

  unfoldable pub post_execute : TaskiqMessage → Worker (Unit {0})
  post_execute message =
      db_retry tenacity (post_body env message (extract_task_execution_id env message))

  unfoldable pub on_error : TaskiqMessage → TaskException → Worker (Unit {0})
  on_error message raised_error =
      error_body env (db_retry tenacity) message raised_error
        (extract_task_execution_id env message)

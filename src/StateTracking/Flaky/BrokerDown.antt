-- ===== src/StateTracking/Flaky/BrokerDown.antt =====
-- A retry that the broker does not take.
use worker_template.Prelude.{
  ◌+◌, String, ◌≡◌, refl, ap, true, none, some, [], ◌∷◌, ◌++◌, arith, filter-head, filter,
  if◌then◌else◌, ◌==◌,
}
use worker_template.Exec.{Error, Result, ok, pure, lift, gets, modify, ◌>>=◌}
use worker_template.Models.{
  Uuid, retrying, failed, dispatch_failed, TaskExecution, TaskAttempt, Tables,
}
use worker_template.Message.{TaskiqMessage, TaskException}
use worker_template.World.{
  Env, fine, fault, World, effect, execute, flush, refresh, reading, commit, kiq, with_session,
}
use worker_template.Retry.{Tenacity}
use worker_template.Services.TaskExecutionService.{
  is_selected, apply_status, write_execution, get_task_execution, store_status, update_task_status,
}
use worker_template.Services.TaskAttemptService.{
  latest, AttemptFields, get_latest_pending_task_attempt, record_task_attempt,
}
use worker_template.StateTracking.Decision.{may_retry, gate_for}
use worker_template.StateTracking.Recording.{
  error_fields, dispatch_error_message, tenant_of, record_attempt_of, record_decision,
  record_initial_error_status, requeue, after_dispatch_error, dispatch_retry,
}
use worker_template.StateTracking.Handlers.{
  new_attempt, reconcile, first_dispatch, handle_allowed, mark_shadowed, decide_and_record,
  error_detail_of, record_in_session, on_error,
}
use worker_template.StateTracking.Events.{emit_status_event}
use worker_template.StateTracking.Announcement.{expected_emission}
use worker_template.StateTracking.Emission.{
  IsEmission-events, emit_status_event-IsEmission, emit_status_event-schedule,
}
use worker_template.StateTracking.Calm.Services.{new_row, filter-write}
use worker_template.StateTracking.Calm.Announced.{on_error-announces}
use worker_template.StateTracking.Calm.Dispatch.{resolve_retry, retried_task, pending_row}
use worker_template.StateTracking.Calm.OnError.{IsRetriable}

-- The eighth call of `on_error` for a retriable task is that of the broker: it raises. All others
-- succeed.
abbrev pub broker_down : World → Error → World
broker_down w e = record w {
  schedule = fine ∷ fine ∷ fine ∷ fine ∷ fine ∷ fine ∷ fine ∷ fault e ∷ [];
}

module _ (env : Env) (message : TaskiqMessage) (error_detail : String) (id : Uuid)
    (task : TaskExecution) (w : World) where
  -- The row when the retry is recorded, and when its dispatch has failed.
  abbrev pub retried_row : TaskExecution
  retried_row = retried_task env id message error_detail task w

  abbrev pub undispatched_row : TaskExecution
  undispatched_row =
      apply_status failed (error_fields error_detail dispatch_error_message)
        (env.now (w.tick + 1 + 1)) retried_row

  abbrev undispatched_fields : AttemptFields
  undispatched_fields = record {
    task_execution_id = id;
    tenant_id = task.tenant_id;
    attempt_number = task.retry_count + 1;
    status_before = retrying;
    status_after = failed;
    error_detail = some error_detail;
    dispatch_result = dispatch_failed;
  }

  -- The audit row of the failed dispatch.
  abbrev pub undispatched_attempt : TaskAttempt
  undispatched_attempt = new_row env undispatched_fields (record w { tick = w.tick + 1 + 1 + 1 })

  abbrev pub undispatched_tables : Tables
  undispatched_tables = record {
    executions = write_execution undispatched_row (write_execution retried_row w.tables.executions);
    attempts =
        (w.tables.attempts ++ pending_row env id message error_detail task w ∷ [])
        ++ undispatched_attempt ∷ [];
  }

  abbrev undispatched : World
  undispatched = record w {
    committed = undispatched_tables;
    tables = undispatched_tables;
    attempt = record {
      recorded_status = some failed;
      recorded_retry_count = some (task.retry_count + 1);
      status_message = some dispatch_error_message;
      attempt_number = some (task.retry_count + 1);
    };
    schedule = [];
    tick = w.tick + 1 + 1 + 1 + 1;
  }

module _ (env : Env) (message : TaskiqMessage) (raised_error : TaskException) (id : Uuid)
    (task : TaskExecution) (w : World) (h : IsRetriable env message id task w) (e : Error) where
  abbrev opened : World
  opened = record w { tables = w.committed }

  gate_opens : gate_for env message (some task) ≡ true
  unfolding gate_for may_retry
  gate_opens = ground (arith, h.below, h.gate)

  abbrev detail : String
  detail = error_detail_of raised_error

  row_id : (retried_row env message detail id task opened).id ≡ id
  unfolding apply_status
  row_id =
      let passed : (task.id == id) ≡ true =
        filter-head (is_selected id none) w.committed.executions task [] h.found in
      ground arith

  found_again :
      filter
        (is_selected id none)
        (write_execution (retried_row env message detail id task opened) w.committed.executions)
      ≡ retried_row env message detail id task opened ∷ []
  found_again = filter-write id task _ w.committed.executions row_id h.found

  in_session :
      with_session
        (record_in_session env message raised_error id)
        (record (broker_down w e) { attempt = new_attempt })
      ≡ (ok (failed, dispatch_error_message), undispatched env message detail id task opened)
  unfolding with_session record_in_session decide_and_record handle_allowed first_dispatch reconcile
      record_initial_error_status record_decision record_attempt_of tenant_of get_task_execution
      get_latest_pending_task_attempt update_task_status store_status record_task_attempt reading
      execute flush refresh commit dispatch_retry requeue after_dispatch_error kiq mark_shadowed
      effect latest pure lift gets modify ◌>>=◌
  in_session = rw h.found (
      rw (resolve_retry env id message detail task gate_opens)
        (rw h.settled (rw h.found (rw found_again refl))))

  on_error-announced :
      (tenacity : Tenacity World)
      → on_error env tenacity message raised_error (broker_down w e)
        ≡ emit_status_event env message failed
            (some dispatch_error_message)
            (some detail)
            (undispatched env message detail id task opened)
  on_error-announced tenacity =
      on_error-announces env message raised_error id (broker_down w e) failed dispatch_error_message
        (undispatched env message detail id task opened) in_session tenacity h.named

  pub undispatched_found :
      filter
        (is_selected id none)
        (undispatched_tables env message detail id task opened).executions
      ≡ undispatched_row env message detail id task opened ∷ []
  unfolding apply_status
  undispatched_found = filter-write id _ _ _ row_id found_again

-- What `on_error` has done where the broker did not take the retry: it returned; the task's row is
-- FAILED with one more retry counted, and the audit table has two more rows, the pending one of the
-- retry and one that says that its dispatch failed; nothing is enqueued, the result is the same, and
-- the event of the failure was sent if there is an emitter.
pub record IsUndispatched (env : Env) (message : TaskiqMessage) (raised_error : TaskException)
    (id : Uuid) (task : TaskExecution) (w : World) (outcome : Result (Unit {0}) × World)
    : Type 0 where
  pub returned : outcome.0 ≡ ok tt
  pub tables :
      outcome.1.committed
      ≡ undispatched_tables env message
          (error_detail_of raised_error)
          id
          task
          (record w { tables = w.committed })
  pub sent : outcome.1.sent ≡ w.sent
  pub result : outcome.1.result ≡ w.result
  pub announced :
      outcome.1.events
      ≡ w.events
        ++ (if w.emitter
            then expected_emission env message failed
                (some dispatch_error_message)
                (some (error_detail_of raised_error))
            else [])
  pub quiet : outcome.1.schedule ≡ []

-- A failure that is to be retried, where the broker raises and every other call succeeds: `on_error`
-- returns; the row is FAILED ("retry dispatch error") with one more retry counted; the audit row of
-- the retry stays pending, and another says that its dispatch failed; nothing is enqueued; the result
-- is the same; and the event of the failure is sent if there is an emitter.
pub on_error-IsUndispatched :
    (env : Env) (tenacity : Tenacity World) (message : TaskiqMessage) (raised_error : TaskException)
    (id : Uuid) (task : TaskExecution) (w : World) (e : Error)
    → IsRetriable env message id task w
    → IsUndispatched env message raised_error id task w
        (on_error env tenacity message raised_error (broker_down w e))
on_error-IsUndispatched env tenacity message raised_error id task w e h =
    let after =
      undispatched env message (error_detail_of raised_error) id task
        (record w { tables = w.committed }) in
    let ends =
      emit_status_event-IsEmission env message failed (some dispatch_error_message)
        (some (error_detail_of raised_error)) after in
    rw (on_error-announced env message raised_error id task w h e tenacity) (record {
      returned = ends.0;
      tables = ap (λ v. v.committed) ends.1.nothing_else;
      sent = ap (λ v. v.sent) ends.1.nothing_else;
      result = ap (λ v. v.result) ends.1.nothing_else;
      announced = IsEmission-events ends.1 refl;
      quiet = emit_status_event-schedule env message failed _ _ after refl;
    })

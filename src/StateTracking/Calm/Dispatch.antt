-- ===== src/StateTracking/Calm/Dispatch.antt =====
-- The session of `on_error` on a task that may be retried, where every call succeeds.
use worker_template.Prelude.{
  List, ℕ, ◌+◌, String, ◌≡◌, refl, true, false, none, some, [], ◌∷◌, ◌++◌, arith, ==-refl, filter,
  filter-append,
}
use worker_template.Exec.{ok, pure, raise, gets, modify, ◌>>=◌}
use worker_template.Models.{
  Uuid, TaskDispatchResult, retrying, TaskExecution, TaskAttempt, Tables, is_open,
}
use worker_template.Message.{TaskiqMessage, no_result}
use worker_template.World.{Env, World, OnErrorAttempt, effect, reading, flush, commit, kiq}
use worker_template.Services.TaskExecutionService.{is_selected, apply_status, write_execution}
use worker_template.Services.TaskAttemptService.{
  mark_task_attempt_dispatched, latest, is_open_attempt, is_pending_attempt, set_dispatched,
  AttemptFields, record_task_attempt,
}
use worker_template.StateTracking.Decision.{
  ErrorContext, RetryDecision, number_or, already_recorded, may_retry, gate_for, fresh_outcome,
  retrying_message, resolve_retry_decision,
}
use worker_template.StateTracking.Recording.{
  error_fields, tenant_of, record_attempt_of, record_decision, record_initial_error_status,
  require_marked, set_no_result, requeue, after_requeue, dispatch_retry,
}
use worker_template.StateTracking.Handlers.{
  new_attempt, reconcile, first_dispatch, handle_allowed, mark_shadowed, decide_and_record,
}
use worker_template.StateTracking.Calm.Services.{
  calm, new_row, update_task_status-calm, get_latest_pending_task_attempt-calm,
  mark_task_attempt_dispatched-calm,
}

pub number_or-add_one : (n d : ℕ) → number_or (some (n + 1)) d ≡ n + 1
number_or-add_one n d = ground arith

-- The world once the broker has the message and its audit row is marked.
abbrev pub dispatched_world : TaskiqMessage → List TaskAttempt → World → World
dispatched_world message attempts w = record w {
  committed = record w.tables { attempts = attempts };
  tables = record w.tables { attempts = attempts };
  sent = w.sent ++ message ∷ [];
  result = record w.result { error = some no_result };
  schedule = [];
}

-- The dispatch of a retry whose audit row can be marked.
pub dispatch_retry-calm :
    (env : Env) (ctx : ErrorContext) (decision : RetryDecision) (n : ℕ) (w : World)
    (attempts : List TaskAttempt)
    → w.attempt.attempt_number ≡ some (n + 1)
    → let sent_world = record w { sent = w.sent ++ ctx.message ∷ []; schedule = [] } in
      mark_task_attempt_dispatched ctx.task_execution_id (n + 1) sent_world
        ≡ (ok true, record sent_world { tables = record w.tables { attempts = attempts } })
      → dispatch_retry env ctx decision (calm w)
        ≡ (ok (decision.status, decision.status_msg), dispatched_world ctx.message attempts w)
unfolding dispatch_retry requeue after_requeue require_marked set_no_result commit kiq effect gets
    modify pure raise ◌>>=◌
dispatch_retry-calm env ctx decision n w attempts numbered marks =
    simp (numbered, number_or-add_one n decision.attempt_number) (rw marks refl)

module _ (env : Env) (id : Uuid) (message : TaskiqMessage) (error_detail : String)
    (task : TaskExecution) where
  abbrev pub context : ErrorContext
  context = record {
    task = some task;
    task_execution_id = id;
    message = message;
    error_detail = error_detail;
  }

  -- The decision to retry.
  abbrev pub retry : RetryDecision
  retry = record {
    status = retrying;
    status_msg = retrying_message task;
    retry_already_recorded = false;
    should_retry = true;
    retry_allowed = true;
    retry_shadowed = false;
    status_before = task.status;
    attempt_number = task.retry_count + 1;
  }

  pub resolve_retry :
      gate_for env message (some task) ≡ true
      → resolve_retry_decision env context new_attempt ≡ retry
  unfolding resolve_retry_decision already_recorded may_retry gate_for fresh_outcome
  resolve_retry open_gate = ground arith

  -- The row of the task once the retry is recorded.
  abbrev pub retried_task : World → TaskExecution
  retried_task w =
      apply_status retrying (error_fields error_detail (retrying_message task)) (env.now w.tick)
        task

  -- The audit row of the retry, as it is first recorded.
  abbrev pub pending_fields : AttemptFields
  pending_fields = record {
    task_execution_id = id;
    tenant_id = task.tenant_id;
    attempt_number = task.retry_count + 1;
    status_before = task.status;
    status_after = retrying;
    error_detail = some error_detail;
    dispatch_result = TaskDispatchResult.pending;
  }

  abbrev pub pending_row : World → TaskAttempt
  pending_row w = new_row env pending_fields (record w { tick = w.tick + 1 })

  -- What the invocation remembers of the recorded retry.
  abbrev pub retry_attempt : OnErrorAttempt
  retry_attempt = record {
    recorded_status = some retrying;
    recorded_retry_count = some (task.retry_count + 1);
    status_message = some (retrying_message task);
    attempt_number = some (task.retry_count + 1);
  }

  -- The world once the retry is recorded in the session.
  abbrev pub recorded : World → World
  recorded w = record w {
    tables = record {
      executions = write_execution (retried_task w) w.tables.executions;
      attempts = w.tables.attempts ++ pending_row w ∷ [];
    };
    attempt = retry_attempt;
    schedule = [];
    tick = w.tick + 1 + 1;
  }

  pub record_retry :
      (w : World)
      → filter (is_selected id none) w.tables.executions ≡ task ∷ []
      → record_initial_error_status env context retry (calm w) ≡ (ok tt, recorded w)
  unfolding record_initial_error_status record_decision record_attempt_of tenant_of
      record_task_attempt reading flush effect modify pure ◌>>=◌
  record_retry w e = rw (update_task_status-calm env id retrying _ w task e)

  -- The tables once the retry is dispatched.
  abbrev pub dispatched_tables : World → Tables
  dispatched_tables w = record {
    executions = write_execution (retried_task w) w.tables.executions;
    attempts =
        set_dispatched (env.gen_random_uuid (w.tick + 1)) (w.tables.attempts ++ pending_row w ∷ []);
  }

  abbrev pub retried : World → World
  retried w = record w {
    committed = dispatched_tables w;
    tables = dispatched_tables w;
    sent = w.sent ++ message ∷ [];
    attempt = retry_attempt;
    result = record w.result { error = some no_result };
    schedule = [];
    tick = w.tick + 1 + 1;
  }

  -- The row just recorded is the only one whose dispatch is open.
  pub open_row :
      (w : World)
      → filter (is_open_attempt id (task.retry_count + 1)) w.tables.attempts ≡ []
      → filter (is_open_attempt id (task.retry_count + 1)) (w.tables.attempts ++ pending_row w ∷ [])
        ≡ pending_row w ∷ []
  unfolding is_open
  open_row w e = rw filter-append (rw e (simp ==-refl))

  dispatch :
      (w : World)
      → filter (is_open_attempt id (task.retry_count + 1)) w.tables.attempts ≡ []
      → dispatch_retry env context retry (record (recorded w) { committed = (recorded w).tables })
        ≡ (ok (retrying, retrying_message task), retried w)
  dispatch w e =
      let before = record (recorded w) { committed = (recorded w).tables } in
      dispatch_retry-calm env context retry task.retry_count before _ refl (
        mark_task_attempt_dispatched-calm id (task.retry_count + 1)
          (record before { sent = w.sent ++ message ∷ [] }) (pending_row w) (open_row w e) refl)

  -- The whole of the work inside the session.
  pub retry_recorded :
      (w : World)
      → gate_for env message (some task) ≡ true
      → filter (is_selected id none) w.tables.executions ≡ task ∷ []
      → filter (is_pending_attempt id) w.tables.attempts ≡ []
      → filter (is_open_attempt id (task.retry_count + 1)) w.tables.attempts ≡ []
      → decide_and_record env context (record w { attempt = new_attempt; schedule = [] })
        ≡ (ok (retrying, retrying_message task), retried w)
  unfolding decide_and_record handle_allowed first_dispatch reconcile mark_shadowed commit effect
      gets pure latest ◌>>=◌
  retry_recorded w open_gate found settled unopened = rw (resolve_retry open_gate) (
      rw (get_latest_pending_task_attempt-calm id (record w { attempt = new_attempt })) (
        rw settled (
          rw (record_retry (record w { attempt = new_attempt }) found) (rw (dispatch w unopened)))))

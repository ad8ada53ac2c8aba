-- ===== src/StateTracking/Calm/Enqueued.antt =====
-- `on_error` for a failure with a retry left and an open gate, whatever audit rows the task has, where
-- every call succeeds.
use worker_template.Prelude.{
  ◌+◌, String, ◌≡◌, refl, ap, true, Option, none, some, List, [], ◌∷◌, ◌++◌, ==-refl, filter,
}
use worker_template.Exec.{ok, pure, gets, ◌>>=◌}
use worker_template.Models.{Uuid, retrying, TaskExecution, TaskAttempt, is_open}
use worker_template.Message.{TaskiqMessage, TaskException}
use worker_template.World.{Env, World, effect, commit, with_session}
use worker_template.Retry.{Tenacity}
use worker_template.Services.TaskExecutionService.{is_selected, write_execution}
use worker_template.Services.TaskAttemptService.{latest, is_open_attempt, is_pending_attempt}
use worker_template.StateTracking.Extract.{extract_task_execution_id}
use worker_template.StateTracking.Emission.{
  emit_status_event-IsEmission, emit_status_event-schedule,
}
use worker_template.StateTracking.Decision.{gate_for, retrying_message}
use worker_template.StateTracking.Recording.{require_marked}
use worker_template.StateTracking.Handlers.{
  new_attempt, reconcile, first_dispatch, handle_allowed, mark_shadowed, decide_and_record,
  error_detail_of, record_in_session, on_error,
}
use worker_template.StateTracking.Calm.Services.{
  calm, get_task_execution-calm, get_latest_pending_task_attempt-calm,
}
use worker_template.StateTracking.Calm.Marked.{
  append-has_row, pending-has_row, mark_task_attempt_dispatched-IsMarked,
}
use worker_template.StateTracking.Calm.Dispatch.{
  context, retry, resolve_retry, retried_task, pending_row, recorded, record_retry,
  dispatched_world, dispatch_retry-calm,
}
use worker_template.StateTracking.Calm.Announced.{on_error-announces}

-- The world with other audit rows in the session.
abbrev with_attempts : List TaskAttempt → World → World
with_attempts attempts w = record w { tables = record w.tables { attempts = attempts } }

reconciles :
    (id : Uuid) (w : World) (found : Option TaskAttempt)
    → latest (filter (is_pending_attempt id) w.tables.attempts) ≡ found
    → (attempts : List TaskAttempt) × (reconcile id found (calm w)
        ≡ (ok tt, calm (with_attempts attempts w)))
unfolding reconcile require_marked pure ◌>>=◌
reconciles id w none e = (w.tables.attempts, refl)
reconciles id w (some row) e =
    let marked =
      mark_task_attempt_dispatched-IsMarked id row.attempt_number w
        (pending-has_row id w.tables.attempts row e) in
    (marked.attempts, rw marked.whole refl)

module _ (env : Env) (id : Uuid) (message : TaskiqMessage) (error_detail : String)
    (task : TaskExecution) where
  abbrev enqueued_world : List TaskAttempt → World → World
  enqueued_world attempts w =
      dispatched_world message attempts (recorded env id message error_detail task w)

  new_row_open :
      (w : World)
      → is_open_attempt id (task.retry_count + 1) (pending_row env id message error_detail task w)
        ≡ true
  unfolding is_open
  new_row_open w = simp ==-refl refl

  dispatches :
      (w : World)
      → filter (is_selected id none) w.tables.executions ≡ task ∷ []
      → (attempts : List TaskAttempt) × (first_dispatch env
            (context env id message error_detail task)
            (retry env id message error_detail task)
            (record w { attempt = new_attempt; schedule = [] })
          ≡ (ok (retrying, retrying_message task), enqueued_world attempts w))
  unfolding first_dispatch commit effect ◌>>=◌
  dispatches w found =
      let started = record w { attempt = new_attempt } in
      let (rows, reconciled) =
        reconciles id started (latest (filter (is_pending_attempt id) w.tables.attempts)) refl in
      let settled = with_attempts rows started in
      let noted = recorded env id message error_detail task settled in
      let before = record noted { committed = noted.tables } in
      let marked =
        mark_task_attempt_dispatched-IsMarked id (task.retry_count + 1)
          (record before { sent = w.sent ++ message ∷ [] })
          (append-has_row _ rows _ (new_row_open settled)) in
      (
        marked.attempts,
        rw (get_latest_pending_task_attempt-calm id started) (
            rw reconciled (
              rw (record_retry env id message error_detail task settled found) (
                dispatch_retry-calm env _ _ task.retry_count before marked.attempts refl
                  marked.whole))),
      )

  enqueues :
      (w : World)
      → gate_for env message (some task) ≡ true
      → filter (is_selected id none) w.tables.executions ≡ task ∷ []
      → (attempts : List TaskAttempt) × (decide_and_record env
            (context env id message error_detail task)
            (record w { attempt = new_attempt; schedule = [] })
          ≡ (ok (retrying, retrying_message task), enqueued_world attempts w))
  unfolding decide_and_record handle_allowed mark_shadowed gets pure ◌>>=◌
  enqueues w open_gate found =
      let (attempts, whole) = dispatches w found in
      (attempts, rw (resolve_retry env id message error_detail task open_gate) (rw whole refl))

-- What `on_error` has done where it retries, apart from the audit: the message is on the queue once
-- more, the task's row counts one more retry, and no call is to fail.
pub record IsEnqueued (env : Env) (message : TaskiqMessage) (raised_error : TaskException)
    (id : Uuid) (task : TaskExecution) (w w' : World) : Type 0 where
  pub sent : w'.sent ≡ w.sent ++ message ∷ []
  pub executions :
      w'.committed.executions
      ≡ write_execution
          (retried_task env id message (error_detail_of raised_error) task w)
          w.committed.executions
  pub quiet : w'.schedule ≡ []

-- A failure with a retry left and an open gate.
pub on_error-IsEnqueued :
    (env : Env) (tenacity : Tenacity World) (message : TaskiqMessage) (raised_error : TaskException)
    (id : Uuid) (task : TaskExecution) (w : World)
    → extract_task_execution_id env message ≡ some id
    → gate_for env message (some task) ≡ true
    → filter (is_selected id none) w.committed.executions ≡ task ∷ []
    → IsEnqueued env message raised_error id task w
        (on_error env tenacity message raised_error (calm w)).1
unfolding with_session record_in_session ◌>>=◌
on_error-IsEnqueued env tenacity message raised_error id task w named open_gate found =
    let opened = record w { tables = w.committed } in
    let detail = error_detail_of raised_error in
    let (attempts, whole) = enqueues env id message detail task opened open_gate found in
    let after = enqueued_world env id message detail task attempts opened in
    let in_session : with_session (record_in_session env message raised_error id)
          (record w { attempt = new_attempt; schedule = [] })
        ≡ (ok (retrying, retrying_message task), after) =
      rw (get_task_execution-calm id (record opened { attempt = new_attempt }) task found) whole in
    let news = emit_status_event-IsEmission env message retrying _ _ after in
    rw
      (on_error-announces env message raised_error id (calm w) retrying (retrying_message task)
        after in_session tenacity named)
      (record {
        sent = ap (λ v. v.sent) news.1.nothing_else;
        executions = ap (λ v. v.committed.executions) news.1.nothing_else;
        quiet = emit_status_event-schedule env message retrying _ _ after refl;
      })

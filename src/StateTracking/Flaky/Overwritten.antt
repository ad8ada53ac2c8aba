-- ===== src/StateTracking/Flaky/Overwritten.antt =====
-- What is left of a failed dispatch once `post_execute` has run.
use worker_template.Prelude.{◌≡◌, refl, ap, true, false, none, some, [], ◌∷◌, filter}
use worker_template.Exec.{Error, ok}
use worker_template.Models.{Uuid, failed, TaskExecution}
use worker_template.Message.{TaskiqMessage, TaskException}
use worker_template.World.{Env, World}
use worker_template.Retry.{Tenacity}
use worker_template.Services.TaskExecutionService.{is_selected, apply_status}
use worker_template.StateTracking.Handlers.{
  error_detail_of, on_error, is_no_result, error_text, post_execute,
}
use worker_template.StateTracking.Extract.{extract_task_execution_id}
use worker_template.StateTracking.Drive.Hooks.{}
use worker_template.StateTracking.Drive.Calls.{ended_task, post_execute-calm}
use worker_template.StateTracking.Calm.Services.{calm, filter-write, named_id}
use worker_template.StateTracking.Calm.OnError.{IsRetriable}
use worker_template.StateTracking.Flaky.BrokerDown.{
  broker_down, undispatched_row, undispatched_found, on_error-IsUndispatched,
}

-- `post_execute` for a failed result, in a world where no call is to fail.
fails_again :
    (env : Env) (tenacity : Tenacity World) (message : TaskiqMessage) (id : Uuid)
    (row : TaskExecution) (v : World)
    → extract_task_execution_id env message ≡ some id
    → filter (is_selected id none) v.committed.executions ≡ row ∷ []
    → v.schedule ≡ []
    → is_no_result v.result.error ≡ false
    → v.result.shadow_retry ≡ false
    → v.result.is_err ≡ true
    → let (r, ended) = post_execute env tenacity message v in
      (r ≡ ok tt)
      × (filter (is_selected id none) ended.committed.executions ≡ ended_task env row v ∷ [])
unfolding apply_status
fails_again env tenacity message id row v named found quiet has_result unshadowed is_err =
    let calmed : post_execute env tenacity message v ≡ post_execute env tenacity message (calm v) =
      ap (λ s. post_execute env tenacity message (record v { schedule = s })) quiet in
    let ends =
      post_execute-calm env tenacity message id row v named found has_result unshadowed is_err in
    rw calmed (
      ends.0,
      (rw ends.1.executions (
          filter-write id row (ended_task env row v) v.committed.executions
            (named_id id row (ended_task env row v) v.committed.executions found refl) found)),
    )

-- The same failure, once `post_execute` has run for its result: it returns, and the row is FAILED with
-- the message "Task failed" and the result's error in the place of what `on_error` has written.
pub post_execute_after_undispatched :
    (env : Env) (tenacity : Tenacity World) (message : TaskiqMessage) (raised_error : TaskException)
    (id : Uuid) (task : TaskExecution) (w : World) (e : Error)
    → IsRetriable env message id task w
    → is_no_result w.result.error ≡ false
    → w.result.shadow_retry ≡ false
    → w.result.is_err ≡ true
    → let failed_world = (on_error env tenacity message raised_error (broker_down w e)).1 in
      let (r, ended) = post_execute env tenacity message failed_world in
      (r ≡ ok tt)
      × ((last : TaskExecution) × (filter (is_selected id none) ended.committed.executions
            ≡ last ∷ [])
          × (last.status ≡ failed)
          × (last.status_message ≡ some "Task failed")
          × (last.error_detail ≡ some (error_text w.result.error)))
unfolding apply_status
post_execute_after_undispatched env tenacity message raised_error id task w e h has_result
      unshadowed is_err =
    let left = on_error-IsUndispatched env tenacity message raised_error id task w e h in
    let failed_world = (on_error env tenacity message raised_error (broker_down w e)).1 in
    let row =
      undispatched_row env message (error_detail_of raised_error) id task
        (record w { tables = w.committed }) in
    let ends =
      fails_again env tenacity message id row failed_world h.named
        (rw left.tables (undispatched_found env message raised_error id task w h e)) left.quiet
        (rw left.result has_result) (rw left.result unshadowed) (rw left.result is_err) in
    (
      ends.0,
      (
        ended_task env row failed_world,
        ends.1,
        refl,
        refl,
        ap (λ r. some (error_text r.error)) left.result,
      ),
    )

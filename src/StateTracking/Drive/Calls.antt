-- ===== src/StateTracking/Drive/Calls.antt =====
-- `pre_execute` and `post_execute` of a failing task, where every call succeeds.
use worker_template.Prelude.{◌≡◌, true, false, none, some, [], ◌∷◌, filter}
use worker_template.Exec.{ok, gets, ◌>>=◌, ◌>>◌}
use worker_template.Models.{Uuid, running, failed, TaskExecution}
use worker_template.Message.{TaskiqMessage}
use worker_template.World.{Env, World, Worker, commit, with_session}
use worker_template.Retry.{Tenacity, db_retry}
use worker_template.Services.TaskExecutionService.{is_selected, apply_status, update_task_status}
use worker_template.StateTracking.Extract.{extract_task_execution_id}
use worker_template.StateTracking.Events.{emit_status_event}
use worker_template.StateTracking.Recording.{error_fields}
use worker_template.StateTracking.Handlers.{
  message_fields, error_text, is_no_result, start_task, pre_body, finish_task, post_body,
  pre_execute, post_execute,
}
use worker_template.StateTracking.Calm.Announced.{db_retry_once}
use worker_template.StateTracking.Calm.Services.{calm}
use worker_template.StateTracking.Drive.Hooks.{status_hook_then, IsUpdated, status_hook}

-- What a hook that returned `a` leaves, run under `db_retry`.
pub hook_once :
    {A : Type 0} (tenacity : Tenacity World) (m : Worker A) (a : A) (changed : TaskExecution)
    (w v : World)
    → ((m v).0 ≡ ok a) × IsUpdated changed w (m v).1
    → ((db_retry tenacity m v).0 ≡ ok a) × IsUpdated changed w (db_retry tenacity m v).1
hook_once tenacity m a changed w v h = rw (db_retry_once tenacity m v a h.0) h

-- The row of the task once it is started.
abbrev pub started_task : Env → TaskExecution → World → TaskExecution
started_task env task w = apply_status running (message_fields "Task started") (env.now w.tick) task

-- The row of the task once it has failed.
abbrev pub ended_task : Env → TaskExecution → World → TaskExecution
ended_task env task w =
    apply_status failed (error_fields (error_text w.result.error) "Task failed") (env.now w.tick)
      task

module _ (env : Env) (tenacity : Tenacity World) (message : TaskiqMessage) (id : Uuid)
    (task : TaskExecution) (w : World) (named : extract_task_execution_id env message ≡ some id)
    (found : filter (is_selected id none) w.committed.executions ≡ task ∷ []) where
  pub pre_execute-calm :
      let outcome = pre_execute env tenacity message (calm w) in
      (outcome.0 ≡ ok message) × IsUpdated (started_task env task w) w outcome.1
  unfolding pre_execute pre_body start_task
  pre_execute-calm = rw named (
      hook_once tenacity (start_task env message id) message (started_task env task w) w (calm w) (
        status_hook_then env message id task w running (message_fields "Task started") _ none
          message found))

  abbrev end_task : Worker (Unit {0})
  end_task =
      with_session (
        update_task_status env id failed (error_fields (error_text w.result.error) "Task failed")
        >> commit)
      >> emit_status_event env message failed (some "Task failed")
          (some (error_text w.result.error))

  post_body_fails :
      is_no_result w.result.error ≡ false
      → w.result.shadow_retry ≡ false
      → w.result.is_err ≡ true
      → post_body env message (some id) (calm w) ≡ end_task (calm w)
  unfolding post_body finish_task gets ◌>>=◌
  post_body_fails has_result unshadowed is_err = simp (has_result, unshadowed, is_err)

  -- The failure of a task whose outcome `on_error` does not own.
  pub post_execute-calm :
      is_no_result w.result.error ≡ false
      → w.result.shadow_retry ≡ false
      → w.result.is_err ≡ true
      → let outcome = post_execute env tenacity message (calm w) in
        (outcome.0 ≡ ok tt) × IsUpdated (ended_task env task w) w outcome.1
  unfolding post_execute
  post_execute-calm has_result unshadowed is_err = rw named (
      hook_once tenacity (post_body env message (some id)) tt (ended_task env task w) w (calm w) (
        rw (post_body_fails has_result unshadowed is_err)
          (status_hook env message id task w failed _ (some "Task failed") _ found)))

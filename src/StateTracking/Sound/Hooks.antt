-- ===== src/StateTracking/Sound/Hooks.antt =====
-- The invariant, over every hook and every sequence of hooks.
use worker_template.Prelude.{◌≡◌, refl, true, Option, none, some, List, [], ◌∷◌, All}
use worker_template.Exec.{◌>>◌}
use worker_template.Exec.Holds.{
  Post-final, Keeps, Holds-bind, Holds-pure, Holds-gets, Holds-if, Holds-modify, Holds-mono,
}
use worker_template.Models.{Uuid, TaskStatus, retrying, running, completed, failed, Tables}
use worker_template.Message.{TaskiqMessage, TaskiqResult, TaskException}
use worker_template.World.{Env, World, commit, with_session}
use worker_template.Retry.{Tenacity, db_retry}
use worker_template.Retry.Limit.{db_retry-Keeps}
use worker_template.Services.TaskExecutionService.{StatusFields, update_task_status}
use worker_template.StateTracking.Handlers.{
  is_no_result, start_task, pre_body, finish_task, post_body, error_body, pre_execute, post_execute,
  on_error,
}
use worker_template.StateTracking.Lifecycle.{Hook, pre, post, error, run_hook, run_hooks}
use worker_template.StateTracking.Sound.Rows.{is_hook_status, InBudget, IsSound, IsSound-refl}
use worker_template.StateTracking.Sound.Calls.{emit_status_event-Holds, Holds-with_session}
use worker_template.StateTracking.Sound.Services.{Inside, update_task_status-Inside}
use worker_template.StateTracking.Sound.Recording.{commit-Inside}
use worker_template.StateTracking.Sound.OnError.{Outside, record_error_status-Outside}

module _ (env : Env) (base : Tables) where
  -- A session that writes a status other than RETRYING and commits.
  status_session-Outside :
      (id : Uuid) (status : TaskStatus) (given : StatusFields)
      → (status ≡ retrying → ⊥)
      → is_hook_status status ≡ true
      → Keeps (Outside env base) (with_session (update_task_status env id status given >> commit))
  status_session-Outside id status given other hook =
      Holds-with_session {P' = Inside base} {Q = λ _. Outside env base} _ (λ w h. (h, h))
        (Holds-mono _
          (Holds-bind _ _
            (Holds-mono _ (update_task_status-Inside base env id status given hook)
              (λ w h. (h, λ e. absurd (other e))) (λ _ w h. h) (λ w h. h))
            (λ _. commit-Inside env base))
          (λ w h. h) (λ _ w h. h.0) (λ w h. h.0))

  start_task-Outside :
      (message : TaskiqMessage) (id : Uuid) → Keeps (Outside env base) (start_task env message id)
  unfolding start_task
  start_task-Outside message id =
      Holds-bind _ _ (status_session-Outside id running _ (λ e. cc) refl) λ _.
        Holds-bind _ _
          (emit_status_event-Holds (λ w rest h. h) env message running _ _ (λ w e h. h))
          (λ _. Holds-pure _ (λ w h. h))

  finish_task-Outside :
      (message : TaskiqMessage) (result : TaskiqResult) (id : Uuid)
      → Keeps (Outside env base) (finish_task env message result id)
  unfolding finish_task
  finish_task-Outside message result id =
      Holds-if result.is_err _ _
        (λ _.
          Holds-bind _ _ (status_session-Outside id failed _ (λ e. cc) refl)
            (λ _. emit_status_event-Holds (λ w rest h. h) env message failed _ _ (λ w e h. h)))
        (λ _.
          Holds-bind _ _ (status_session-Outside id completed _ (λ e. cc) refl)
            (λ _. emit_status_event-Holds (λ w rest h. h) env message completed _ _ (λ w e h. h)))

  pre_body-Outside :
      (message : TaskiqMessage) (id : Option Uuid)
      → Keeps (Outside env base) (pre_body env message id)
  unfolding pre_body
  pre_body-Outside message none = Holds-pure _ (λ w h. h)
  pre_body-Outside message (some id) = start_task-Outside message id

  post_body-Outside :
      (message : TaskiqMessage) (id : Option Uuid)
      → Keeps (Outside env base) (post_body env message id)
  unfolding post_body
  post_body-Outside message none = Holds-pure _ (λ w h. h)
  post_body-Outside message (some id) =
      Holds-bind {Q = λ _. Outside env base} _ _ (Holds-gets _ (λ w h. h)) λ result.
        Holds-if (is_no_result result.error) _ _ (λ _. Holds-pure _ (λ w h. h))
          (λ _.
            Holds-if result.shadow_retry _ _ (λ _. Holds-pure _ (λ w h. h))
              (λ _. finish_task-Outside message result id))

  module _ (tenacity : Tenacity World) where
    error_body-Outside :
        (message : TaskiqMessage) (raised_error : TaskException) (id : Option Uuid)
        → Keeps (Outside env base) (error_body env (db_retry tenacity) message raised_error id)
    unfolding error_body
    error_body-Outside message raised_error none = Holds-pure _ (λ w h. h)
    error_body-Outside message raised_error (some id) =
        Holds-bind {Q = λ _. Outside env base} _ _ (Holds-modify _ (λ w h. h)) (λ _.
          db_retry-Keeps tenacity (Outside env base) _
            (record_error_status-Outside env base message raised_error id))

    run_hook-Outside :
        (hook : Hook) (w : World)
        → Outside env base w
        → Outside env base (run_hook env tenacity hook w)
    unfolding run_hook pre_execute post_execute on_error
    run_hook-Outside (pre message) w h =
        Post-final (Outside env base) _
          ((db_retry-Keeps tenacity (Outside env base) _ (pre_body-Outside message _)).at w h)
    run_hook-Outside (post message result) w h = Post-final (Outside env base) _ (
        (db_retry-Keeps tenacity (Outside env base) _ (post_body-Outside message _)).at
          (record w { result = result }) h)
    run_hook-Outside (error message result raised_error) w h =
        Post-final (Outside env base) _
          ((error_body-Outside message raised_error _).at (record w { result = result }) h)

    run_hooks-Outside :
        (hooks : List Hook) (w : World)
        → Outside env base w
        → Outside env base (run_hooks env tenacity hooks w)
    unfolding run_hooks
    run_hooks-Outside [] w h = h
    run_hooks-Outside (hook ∷ hooks) w h =
        run_hooks-Outside hooks (run_hook env tenacity hook w) (run_hook-Outside hook w h)

-- Whatever hooks run, in whatever order, and however each call of the database, of the broker and of
-- Socket.IO ends: if every committed row had `retry_count ≤ max_retries`, then every committed row
-- has it still; each row of `task_execution` is what some status updates to RUNNING, RETRYING,
-- COMPLETED or FAILED have made of the row that was in its place, and is the same in every column
-- that is not part of a status; and the rows of `task_attempt` are those of before, changed at most
-- in that their `dispatch_result` became `dispatched`, followed by new rows with an `attempt_number`
-- of 1 or more.
pub run_hooks-IsSound :
    (env : Env) (tenacity : Tenacity World) (hooks : List Hook) (w : World)
    → All InBudget w.committed.executions
    → IsSound w.committed (run_hooks env tenacity hooks w).committed
run_hooks-IsSound env tenacity hooks w h =
    run_hooks-Outside env w.committed tenacity hooks w (IsSound-refl w.committed h)

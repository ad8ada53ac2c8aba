-- ===== src/StateTracking/Drive/LastDelivery.antt =====
-- One delivery of a failing task that has no retry left, where every call succeeds.
use worker_template.Prelude.{
  ◌<◌, ◌≡◌, refl, ap, ◌∙◌, false, none, some, [], ◌∷◌, arith, filter, pair_eq,
}
use worker_template.Exec.{ok}
use worker_template.Models.{Uuid, failed, TaskExecution}
use worker_template.Message.{TaskiqMessage, TaskException}
use worker_template.Message.Json.{Json}
use worker_template.World.{Env, World}
use worker_template.Retry.{Tenacity}
use worker_template.Services.TaskExecutionService.{is_selected, apply_status}
use worker_template.StateTracking.Handlers.{post_execute, on_error, error_detail_of}
use worker_template.StateTracking.Calm.Services.{calm, calm_eq, filter-write, named_id}
use worker_template.StateTracking.Decision.{may_retry, gate_for}
use worker_template.StateTracking.Calm.Refused.{refused_task}
use worker_template.StateTracking.Calm.OnRefused.{IsRefused, on_error-IsRefused}
use worker_template.StateTracking.Drive.{Receiver, IsWaiting}
use worker_template.StateTracking.Drive.Hooks.{IsAt, IsUpdated}
use worker_template.StateTracking.Drive.Calls.{ended_task, post_execute-calm}
use worker_template.StateTracking.Drive.Started.{
  running_world, running_row, starts, running-IsAt, raised_world, steps_to,
}

module _ {env : Env} {tenacity : Tenacity World} {json : Json env}
    (receiver : Receiver env tenacity json) (x : TaskException) (message : TaskiqMessage)
    (id : Uuid) (task : TaskExecution) (w : World) (at : IsAt env message id task w)
    (waiting : IsWaiting json message w) (exhausted : ¬ (task.retry_count < task.max_retries)) where
  abbrev begun : World
  begun = running_world env tenacity message id task w at

  abbrev begun_row : TaskExecution
  begun_row = running_row env tenacity message id task w at

  abbrev raised_here : World
  raised_here = raised_world env tenacity message id task w at x

  here : IsAt env message id begun_row begun
  here = running-IsAt env tenacity message id task w at

  abbrev refused_row : TaskExecution
  refused_row =
      refused_task env id message (error_detail_of x) begun_row false false
        (record raised_here { tables = begun.committed })

  abbrev failed_world : World
  failed_world = (on_error env tenacity message x (calm raised_here)).1

  none_left : may_retry (some begun_row) ≡ false
  unfolding may_retry apply_status
  none_left = ground arith

  no_gate : gate_for env message (some begun_row) ≡ false
  unfolding gate_for
  no_gate = rw none_left refl

  refuses :
      IsRefused env message x id begun_row false false raised_here
        (on_error env tenacity message x (calm raised_here))
  refuses = rw none_left at (
      on_error-IsRefused env tenacity message x id begun_row raised_here
        (record { named = at.named; found = here.found; shut = no_gate }))

  refused_found : filter (is_selected id none) failed_world.committed.executions ≡ refused_row ∷ []
  unfolding apply_status
  refused_found = rw refuses.tables (
      filter-write id begun_row refused_row begun.committed.executions
        (named_id id begun_row refused_row begun.committed.executions here.found refl) here.found)

  abbrev ended_world : World
  ended_world = (post_execute env tenacity message (calm failed_world)).1

  ends :
      ((post_execute env tenacity message (calm failed_world)).0 ≡ ok tt)
      × IsUpdated (ended_task env refused_row failed_world) failed_world ended_world
  ends =
      post_execute-calm env tenacity message id refused_row failed_world at.named refused_found
        (rw refuses.result refl) (rw refuses.result refl) (rw refuses.result refl)

  step_ends : receiver.step x w ≡ ended_world
  step_ends =
      steps_to env tenacity message id task w at receiver x failed_world ended_world waiting
        (pair_eq _ refuses.returned)
        (ap (post_execute env tenacity message) (calm_eq failed_world refuses.quiet)
          ∙ pair_eq _ ends.0)

  abbrev ended_row : TaskExecution
  ended_row = ended_task env refused_row failed_world

  ended_found : filter (is_selected id none) ended_world.committed.executions ≡ ended_row ∷ []
  unfolding apply_status
  ended_found = rw ends.1.executions (
      filter-write id refused_row ended_row failed_world.committed.executions
        (named_id id refused_row ended_row failed_world.committed.executions refused_found refl)
        refused_found)

  ended_sent : ended_world.sent ≡ []
  ended_sent = ends.1.sent ∙ (refuses.sent ∙ (starts env tenacity message id task w at).1.sent)

-- A delivery of a task without a retry left: the queue is empty, and the task has failed.
pub delivery_ends :
    {env : Env} {tenacity : Tenacity World} {json : Json env}
    (receiver : Receiver env tenacity json) (x : TaskException) (message : TaskiqMessage)
    (id : Uuid) (task : TaskExecution) (w : World)
    → IsAt env message id task w
    → IsWaiting json message w
    → ¬ (task.retry_count < task.max_retries)
    → (last : TaskExecution) × (filter
          (is_selected id none)
          (receiver.step x w).committed.executions
        ≡ last ∷ [])
      × ((receiver.step x w).sent ≡ [])
      × (last.status ≡ failed)
      × (last.retry_count ≡ task.retry_count)
unfolding apply_status
delivery_ends receiver x message id task w at waiting exhausted =
    rw (step_ends receiver x message id task w at waiting exhausted) (
      ended_row receiver x message id task w at waiting exhausted,
      ended_found receiver x message id task w at waiting exhausted,
      ended_sent receiver x message id task w at waiting exhausted,
      refl,
      refl,
    )

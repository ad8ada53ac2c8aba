-- ===== src/StateTracking/Drive/Completion.antt =====
-- One delivery of a task that returns, where every call succeeds.
use worker_template.Prelude.{ℕ, ◌≡◌, refl, ap, ◌∙◌, none, some, [], ◌∷◌, filter, pair_eq}
use worker_template.Exec.{ok, gets, ◌>>=◌, ◌>>◌}
use worker_template.Models.{Uuid, completed, TaskExecution}
use worker_template.Message.{TaskiqMessage}
use worker_template.Message.Json.{Json}
use worker_template.World.{Env, World, Worker, commit, with_session}
use worker_template.Retry.{Tenacity}
use worker_template.Services.TaskExecutionService.{is_selected, apply_status, update_task_status}
use worker_template.StateTracking.Events.{emit_status_event}
use worker_template.StateTracking.Handlers.{message_fields, finish_task, post_body, post_execute}
use worker_template.StateTracking.Calm.Services.{calm, calm_eq, filter-write, named_id}
use worker_template.StateTracking.Drive.{returned, Receiver, IsWaiting}
use worker_template.StateTracking.Drive.Hooks.{IsAt, IsUpdated, status_hook}
use worker_template.StateTracking.Drive.Calls.{hook_once}
use worker_template.StateTracking.Drive.Started.{
  running_world, running_row, starts, running-IsAt, arrives_calm,
}

module _ (env : Env) (tenacity : Tenacity World) (message : TaskiqMessage) (id : Uuid)
    (task : TaskExecution) (w : World) (at : IsAt env message id task w) where
  -- The world in which the task has returned.
  abbrev returned_world : World
  returned_world = record (running_world env tenacity message id task w at) { result = returned }

  abbrev begun_row : TaskExecution
  begun_row = running_row env tenacity message id task w at

  begun : IsAt env message id begun_row (running_world env tenacity message id task w at)
  begun = running-IsAt env tenacity message id task w at

  -- The row of the task once it has completed.
  abbrev completed_row : TaskExecution
  completed_row =
      apply_status completed (message_fields "Task completed successfully")
        (env.now returned_world.tick) begun_row

  abbrev complete_task : Worker (Unit {0})
  complete_task =
      with_session (
        update_task_status env id completed (message_fields "Task completed successfully")
        >> commit)
      >> emit_status_event env message completed (some "Task completed successfully") none

  post_body_completes :
      post_body env message (some id) (calm returned_world) ≡ complete_task (calm returned_world)
  unfolding post_body finish_task gets ◌>>=◌
  post_body_completes = refl

  abbrev completed_world : World
  completed_world = (post_execute env tenacity message (calm returned_world)).1

  ends :
      let outcome = post_execute env tenacity message (calm returned_world) in
      (outcome.0 ≡ ok tt) × IsUpdated completed_row returned_world outcome.1
  unfolding post_execute
  ends = rw at.named (
      hook_once tenacity (post_body env message (some id)) tt completed_row returned_world
        (calm returned_world)
        (rw post_body_completes (
          status_hook env message id begun_row returned_world completed
            (message_fields "Task completed successfully") (some "Task completed successfully") none
            begun.found)))

  completed_found :
      filter (is_selected id none) completed_world.committed.executions ≡ completed_row ∷ []
  unfolding apply_status
  completed_found = rw ends.1.executions (
      filter-write id begun_row completed_row returned_world.committed.executions
        (named_id id begun_row completed_row returned_world.committed.executions begun.found refl)
        begun.found)

  finish_completes :
      {json : Json env} (receiver : Receiver env tenacity json)
      → IsWaiting json message w
      → receiver.finish w ≡ completed_world
  finish_completes receiver waiting =
      receiver.finishes w waiting.queued message []
        (running_world env tenacity message id task w at) completed_world waiting.sent
        (arrives_calm env tenacity message id task w at waiting)
        (ap (post_execute env tenacity message) (calm_eq returned_world begun.quiet)
          ∙ pair_eq _ ends.0)

-- The task has completed: its one row is COMPLETED, and no message is on the queue.
pub record IsCompleted (id : Uuid) (retry_count : ℕ) (w : World) : Type 0 where
  pub last : TaskExecution
  pub found : filter (is_selected id none) w.committed.executions ≡ last ∷ []
  pub sent : w.sent ≡ []
  pub status : last.status ≡ completed
  pub said : last.status_message ≡ some "Task completed successfully"
  pub counted : last.retry_count ≡ retry_count

-- A delivery of a task that returns: the queue is empty, the task is COMPLETED, and no retry is counted.
pub delivery_completes :
    {env : Env} {tenacity : Tenacity World} {json : Json env}
    (receiver : Receiver env tenacity json) (message : TaskiqMessage) (id : Uuid)
    (task : TaskExecution) (w : World)
    → IsAt env message id task w
    → IsWaiting json message w
    → IsCompleted id task.retry_count (receiver.finish w)
unfolding apply_status
delivery_completes {env} {tenacity} receiver message id task w at waiting =
    rw (finish_completes env tenacity message id task w at receiver waiting) (record {
      last = completed_row env tenacity message id task w at;
      found = completed_found env tenacity message id task w at;
      sent =
          (ends env tenacity message id task w at).1.sent
          ∙ (starts env tenacity message id task w at).1.sent;
      status = refl;
      said = refl;
      counted = refl;
    })

-- ===== src/StateTracking/Drive/Started.antt =====
-- The start of a delivery, where every call succeeds.
use worker_template.Prelude.{◌≡◌, refl, ap, ◌∙◌, [], pair_eq}
use worker_template.Exec.{ok}
use worker_template.Models.{Uuid, TaskExecution}
use worker_template.Message.{TaskiqMessage, TaskException}
use worker_template.Message.Json.{Json, received_message}
use worker_template.World.{Env, World}
use worker_template.Retry.{Tenacity}
use worker_template.Services.TaskExecutionService.{apply_status}
use worker_template.StateTracking.Handlers.{pre_execute, post_execute, on_error}
use worker_template.StateTracking.Calm.Services.{calm, calm_eq}
use worker_template.StateTracking.Drive.{failed_with, Receiver, IsWaiting}
use worker_template.StateTracking.Drive.Hooks.{IsAt, IsUpdated, IsAt-updated}
use worker_template.StateTracking.Drive.Calls.{started_task, pre_execute-calm}

module _ (env : Env) (tenacity : Tenacity World) (message : TaskiqMessage) (id : Uuid)
    (task : TaskExecution) (w : World) (at : IsAt env message id task w) where
  -- The world in which the worker has taken the message off the queue.
  abbrev pub taken : World
  taken = record w { sent = [] }

  -- The world once the task is started.
  abbrev pub running_world : World
  running_world = (pre_execute env tenacity message (calm taken)).1

  abbrev pub running_row : TaskExecution
  running_row = started_task env task taken

  taken-IsAt : IsAt env message id task taken
  taken-IsAt = record {
    named = at.named;
    gate = at.gate;
    found = at.found;
    settled = at.settled;
    numbered = at.numbered;
    quiet = at.quiet;
  }

  pub starts :
      ((pre_execute env tenacity message (calm taken)).0 ≡ ok message)
      × IsUpdated running_row taken running_world
  starts = pre_execute-calm env tenacity message id task taken at.named at.found

  pub running-IsAt : IsAt env message id running_row running_world
  unfolding apply_status
  running-IsAt = IsAt-updated taken-IsAt refl refl refl starts.1

  pub started_calm : pre_execute env tenacity message taken ≡ (ok message, running_world)
  started_calm =
      ap (pre_execute env tenacity message) (calm_eq taken at.quiet)
      ∙ pair_eq (pre_execute env tenacity message (calm taken)) starts.0

  -- The world in which the task has raised.
  abbrev pub raised_world : TaskException → World
  raised_world x = record running_world { result = failed_with x }

  pub arrives_calm :
      {json : Json env} (waiting : IsWaiting json message w)
      → pre_execute env tenacity (received_message json waiting.queued) taken
        ≡ (ok message, running_world)
  arrives_calm waiting = ap (λ m. pre_execute env tenacity m taken) waiting.arrives ∙ started_calm

  -- What the three hooks leave where `on_error` and `post_execute` return.
  pub steps_to :
      {json : Json env} (receiver : Receiver env tenacity json) (x : TaskException)
      (failed_world ended : World)
      → IsWaiting json message w
      → on_error env tenacity message x (calm (raised_world x)) ≡ (ok tt, failed_world)
      → post_execute env tenacity message failed_world ≡ (ok tt, ended)
      → receiver.step x w ≡ ended
  steps_to receiver x failed_world ended waiting failing ending =
      receiver.delivers x w waiting.queued message [] running_world failed_world ended waiting.sent
        (arrives_calm waiting)
        (ap (on_error env tenacity message x) (calm_eq (raised_world x) running-IsAt.quiet)
          ∙ failing)
        ending

-- ===== src/StateTracking/Drive/Delivery.antt =====
-- One delivery of a failing task that has a retry left, where every call succeeds.
use worker_template.Prelude.{◌+◌, ◌<◌, ◌≡◌, refl, sym, ap, ◌∙◌, [], ◌∷◌, ◌++◌, inl, pair_eq}
use worker_template.Models.{Uuid, TaskExecution}
use worker_template.Message.{TaskiqMessage, TaskException}
use worker_template.Message.Json.{Json, received_message, received_message-again}
use worker_template.World.{Env, World}
use worker_template.Retry.{Tenacity}
use worker_template.Services.TaskExecutionService.{apply_status}
use worker_template.StateTracking.Handlers.{on_error, error_detail_of}
use worker_template.StateTracking.Calm.Services.{calm, filter-write, named_id}
use worker_template.StateTracking.Calm.Dispatch.{retried_task, pending_row}
use worker_template.StateTracking.Calm.OnError.{
  IsRetriable, IsRetried, on_error-IsRetried, post_execute-IsOwned,
}
use worker_template.StateTracking.Drive.{Receiver, IsWaiting}
use worker_template.StateTracking.Drive.Attempts.{open-AreUpTo, AreUpTo-recorded, settled-recorded}
use worker_template.StateTracking.Drive.Hooks.{IsAt}
use worker_template.StateTracking.Drive.Started.{
  running_world, running_row, starts, running-IsAt, raised_world, steps_to,
}

module _ {env : Env} {tenacity : Tenacity World} {json : Json env}
    (receiver : Receiver env tenacity json) (x : TaskException) (message : TaskiqMessage)
    (id : Uuid) (task : TaskExecution) (w : World) (at : IsAt env message id task w)
    (waiting : IsWaiting json message w) (below : task.retry_count < task.max_retries) where
  abbrev begun : World
  begun = running_world env tenacity message id task w at

  abbrev begun_row : TaskExecution
  begun_row = running_row env tenacity message id task w at

  abbrev raised_here : World
  raised_here = raised_world env tenacity message id task w at x

  here : IsAt env message id begun_row begun
  here = running-IsAt env tenacity message id task w at

  abbrev retried_row : TaskExecution
  retried_row =
      retried_task env id message (error_detail_of x) begun_row
        (record raised_here { tables = begun.committed })

  abbrev retried_world : World
  retried_world = (on_error env tenacity message x (calm raised_here)).1

  retriable : IsRetriable env message id begun_row raised_here
  unfolding apply_status
  retriable = record {
    named = at.named;
    below = below;
    gate = here.gate;
    found = here.found;
    settled = here.settled;
    unopened = open-AreUpTo id task.retry_count begun.committed.attempts here.numbered;
  }

  retries :
      IsRetried env message x id begun_row raised_here
        (on_error env tenacity message x (calm raised_here))
  retries = on_error-IsRetried env tenacity message x id begun_row raised_here retriable

  step_retries : receiver.step x w ≡ retried_world
  step_retries =
      steps_to env tenacity message id task w at receiver x retried_world retried_world waiting
        (pair_eq _ retries.returned)
        (post_execute-IsOwned env tenacity message retried_world
          (inl (ap (λ r. r.error) retries.result)))

  retried-IsAt : IsAt env message id retried_row retried_world
  unfolding apply_status
  retried-IsAt = record {
    named = at.named;
    gate = here.gate;
    found = rw retries.tables (
        filter-write id begun_row retried_row begun.committed.executions
          (named_id id begun_row retried_row begun.committed.executions here.found refl)
          here.found);
    settled = rw retries.tables (
        settled-recorded id begun.committed.attempts
          (pending_row env id message (error_detail_of x) begun_row
            (record raised_here { tables = begun.committed }))
          here.settled);
    numbered =
        rw retries.tables
          (AreUpTo-recorded _ id task.retry_count begun.committed.attempts _ here.numbered refl);
    quiet = retries.quiet;
  }

  retried_sent : retried_world.sent ≡ message ∷ []
  retried_sent =
      retries.sent ∙ ap (λ l. l ++ message ∷ []) (starts env tenacity message id task w at).1.sent

  -- A message that has arrived arrives the same when it is sent again.
  retried-IsWaiting : IsWaiting json message retried_world
  retried-IsWaiting = record {
    queued = message;
    sent = retried_sent;
    arrives =
        ap (received_message json) (sym waiting.arrives)
        ∙ (received_message-again json waiting.queued ∙ waiting.arrives);
  }

-- A delivery of a task with a retry left: the message is on the queue again, and one more retry is
-- counted.
pub delivery_retries :
    {env : Env} {tenacity : Tenacity World} {json : Json env}
    (receiver : Receiver env tenacity json) (x : TaskException) (message : TaskiqMessage)
    (id : Uuid) (task : TaskExecution) (w : World)
    → IsAt env message id task w
    → IsWaiting json message w
    → task.retry_count < task.max_retries
    → (next : TaskExecution) × IsAt env message id next (receiver.step x w)
      × IsWaiting json message (receiver.step x w)
      × (next.retry_count ≡ task.retry_count + 1)
      × (next.max_retries ≡ task.max_retries)
unfolding apply_status
delivery_retries receiver x message id task w at waiting below =
    rw (step_retries receiver x message id task w at waiting below) (
      retried_row receiver x message id task w at waiting below,
      retried-IsAt receiver x message id task w at waiting below,
      retried-IsWaiting receiver x message id task w at waiting below,
      refl,
      refl,
    )

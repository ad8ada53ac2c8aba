-- ===== src/StateTracking/Drive/Ends.antt =====
-- The whole life of a task that fails each time.
use worker_template.Prelude.{
  ℕ, zero, suc, ◌+◌, ◌≤◌, ◌<◌, ◌≡◌, refl, Bool-cases, none, [], ◌∷◌, arith, ltb, filter, inl, inr,
}
use worker_template.Models.{Uuid, failed, TaskExecution}
use worker_template.Message.{TaskiqMessage, TaskException}
use worker_template.Message.Json.{Json}
use worker_template.World.{Env, World}
use worker_template.Retry.{Tenacity}
use worker_template.Services.TaskExecutionService.{is_selected}
use worker_template.StateTracking.Drive.{Receiver, IsWaiting, drive}
use worker_template.StateTracking.Drive.Hooks.{IsAt}
use worker_template.StateTracking.Drive.Delivery.{delivery_retries}
use worker_template.StateTracking.Drive.LastDelivery.{delivery_ends}

-- The task has used up its retries and has failed for good.
pub record IsOver (id : Uuid) (max_retries : ℕ) (w : World) : Type 0 where
  pub last : TaskExecution
  pub found : filter (is_selected id none) w.committed.executions ≡ last ∷ []
  pub sent : w.sent ≡ []
  pub status : last.status ≡ failed
  pub retry_count : last.retry_count ≡ max_retries

-- The task is to be delivered again, with `retry_count` retries counted.
pub record IsQueued {env : Env} (json : Json env) (message : TaskiqMessage) (id : Uuid)
    (retry_count : ℕ) (w : World) : Type 0 where
  pub task : TaskExecution
  pub at : IsAt env message id task w
  pub waiting : IsWaiting json message w
  pub counted : task.retry_count ≡ retry_count

module _ {env : Env} {tenacity : Tenacity World} {json : Json env}
    (receiver : Receiver env tenacity json) (errors : ℕ → TaskException) where
  drive_waits : (n : ℕ) (w : World) → w.sent ≡ [] → drive receiver errors n w ≡ w
  unfolding drive
  drive_waits zero w idle = refl
  drive_waits (suc n) w idle = rw (receiver.waits (errors n) w idle) (drive_waits n w idle)

-- Where no call of an external service is to fail: as long as retries are left, each delivery of a
-- task that fails puts its message on the queue again, and counts one more retry.
pub drive-IsQueued :
    {env : Env} {tenacity : Tenacity World} {json : Json env}
    (receiver : Receiver env tenacity json) (errors : ℕ → TaskException) (n : ℕ)
    (message : TaskiqMessage) (id : Uuid) (task : TaskExecution) (w : World)
    → IsAt env message id task w
    → IsWaiting json message w
    → task.retry_count + n ≤ task.max_retries
    → IsQueued json message id (task.retry_count + n) (drive receiver errors n w)
unfolding drive
drive-IsQueued receiver errors zero message id task w at waiting h = record {
  task = task;
  at = at;
  waiting = waiting;
  counted = omega arith;
}
drive-IsQueued receiver errors (suc n) message id task w at waiting h =
    let (next, next_at, next_waiting, one_more, same) =
      delivery_retries receiver (errors n) message id task w at waiting (omega (arith, h)) in
    let all_counted : next.retry_count + n ≡ task.retry_count + suc n = omega (arith, one_more) in
    rw all_counted at (
      drive-IsQueued receiver errors n message id next (receiver.step (errors n) w) next_at
        next_waiting (omega (arith, h, one_more, same)))

-- Where no call of an external service is to fail: a task that fails at every delivery, and whose gate
-- is open, is delivered no more than `max_retries - retry_count + 1` times. The queue is empty then and
-- stays so, the task is FAILED, and `retry_count` is `max_retries`.
pub drive-IsOver :
    {env : Env} {tenacity : Tenacity World} {json : Json env}
    (receiver : Receiver env tenacity json) (errors : ℕ → TaskException) (n : ℕ)
    (message : TaskiqMessage) (id : Uuid) (task : TaskExecution) (w : World)
    → IsAt env message id task w
    → IsWaiting json message w
    → task.retry_count ≤ task.max_retries
    → task.max_retries < task.retry_count + n
    → IsOver id task.max_retries (drive receiver errors n w)
unfolding drive
drive-IsOver receiver errors zero message id task w at waiting budget enough =
    absurd (omega (arith, budget, enough))
drive-IsOver receiver errors (suc n) message id task w at waiting budget enough =
    elim (Bool-cases (ltb task.retry_count task.max_retries)) [
      | inl below ↦
          let (next, next_at, next_waiting, one_more, same) =
            delivery_retries receiver (errors n) message id task w at waiting (ground arith) in
          rw same at (
            drive-IsOver receiver errors n message id next (receiver.step (errors n) w) next_at
              next_waiting (ground arith) (omega (arith, enough, one_more, same)))
      | inr exhausted ↦
          let (last, found, idle, status, same) =
            delivery_ends receiver (errors n) message id task w at waiting (ground arith) in
          rw (drive_waits receiver errors n (receiver.step (errors n) w) idle) (record {
            last = last;
            found = found;
            sent = idle;
            status = status;
            retry_count = ground arith;
          })
    ]

-- ===== src/StateTracking/Drive/Completed.antt =====
-- The whole life of a task that fails some times and then returns.
use worker_template.Prelude.{
  some, ==-refl, ℕ, ◌+◌, ◌≤◌, String, ◌≡◌, refl, ap, true, none, [], ◌∷◌, ◌++◌, filter,
  filter-append, All, ◌==◌, false, arith, List,
}
use worker_template.Exec.{ok}
use worker_template.Models.{Uuid, TaskExecution, TaskAttempt}
use worker_template.Message.{lookup, TaskiqMessage, TaskException}
use worker_template.Message.Json.{Json, received_message}
use worker_template.StateTracking.Extract.{
  parse_uuid, label, raw_entry, candidates, first_parsed, extract_task_execution_id,
}
use worker_template.World.{Env, World}
use worker_template.Retry.{Tenacity}
use worker_template.Services.TaskExecutionService.{is_selected}
use worker_template.Services.TaskAttemptService.{is_pending_attempt}
use worker_template.StateTracking.Calm.Services.{calm}
use worker_template.StateTracking.Drive.Attempts.{AreUpTo}
use worker_template.StateTracking.Gate.{retry_gate_allows}
use worker_template.StateTracking.Drive.{Receiver, IsWaiting, drive}
use worker_template.StateTracking.Drive.Hooks.{IsAt}
use worker_template.StateTracking.Drive.Ends.{drive-IsQueued}
use worker_template.StateTracking.Drive.Completion.{IsCompleted, delivery_completes}
use worker_template.ExampleTask.{Registry, model_dump, kicked_message, dispatch_example_task}
use worker_template.ExampleTask.Tracked.{
  new_row, new_message, sent_world, dispatch_example_task-calm,
}

-- A task that is at hand is COMPLETED after `n` failures for which retries are left and a return.
pub drive-IsCompleted :
    {env : Env} {tenacity : Tenacity World} {json : Json env}
    (receiver : Receiver env tenacity json) (errors : ℕ → TaskException) (n : ℕ)
    (message : TaskiqMessage) (id : Uuid) (task : TaskExecution) (w : World)
    → IsAt env message id task w
    → IsWaiting json message w
    → task.retry_count + n ≤ task.max_retries
    → IsCompleted id (task.retry_count + n) (receiver.finish (drive receiver errors n w))
drive-IsCompleted receiver errors n message id task w at waiting budget =
    let left = drive-IsQueued receiver errors n message id task w at waiting budget in
    rw left.counted at (delivery_completes receiver message id left.task _ left.at left.waiting)

-- The id is new: no row of a task has it, and no audit row refers to it.
pub record IsUnused (id : Uuid) (w : World) : Type 0 where
  pub unlisted : filter (is_selected id none) w.committed.executions ≡ []
  pub unaudited : All (λ row. (row.task_execution_id == id) ≡ false) w.committed.attempts

unaudited-settled :
    (id : Uuid) (rows : List TaskAttempt)
    → All (λ row. (row.task_execution_id == id) ≡ false) rows
    → filter (is_pending_attempt id) rows ≡ []
unaudited-settled id [] h = refl
unaudited-settled id (row ∷ rows) h = ground (arith, h.0, unaudited-settled id rows h.1)

unaudited-AreUpTo :
    (id : Uuid) (n : ℕ) (rows : List TaskAttempt)
    → All (λ row. (row.task_execution_id == id) ≡ false) rows
    → AreUpTo id n rows
unaudited-AreUpTo id n [] h = tt
unaudited-AreUpTo id n (row ∷ rows) h =
    (λ same. absurd (ground (arith, h.0, same)), unaudited-AreUpTo id n rows h.1)

module _ (env : Env) (json : Json env) (registry : Registry) (tenant_id : Uuid)
    (document_url output_format : String) (w : World) where
  abbrev row : TaskExecution
  row = new_row env registry tenant_id document_url output_format w

  -- The message as it arrives.
  abbrev arrived : TaskiqMessage
  arrived = received_message json (new_message env registry tenant_id document_url output_format w)

  abbrev queued_world : World
  queued_world = sent_world env registry tenant_id document_url output_format w []

  arrived_named :
      env.uuid_of_text (env.uuid_text row.id) ≡ some row.id
      → extract_task_execution_id env arrived ≡ some row.id
  unfolding extract_task_execution_id candidates first_parsed label raw_entry parse_uuid lookup
      model_dump kicked_message
  arrived_named reads_back = rw json.sends_dict (rw (json.sends_uuid row.id) (rw reads_back refl))

  module _ (unused : IsUnused (env.gen_random_uuid w.tick) w) where
    row_found : filter (is_selected row.id none) queued_world.committed.executions ≡ row ∷ []
    row_found = rw filter-append (rw unused.unlisted (simp ==-refl))

    queued-IsAt :
        env.uuid_of_text (env.uuid_text row.id) ≡ some row.id
        → retry_gate_allows env registry.task_name tenant_id ≡ true
        → IsAt env arrived row.id row queued_world
    unfolding kicked_message
    queued-IsAt reads_back gate = record {
      named = arrived_named reads_back;
      gate = gate;
      found = row_found;
      settled = unaudited-settled row.id w.committed.attempts unused.unaudited;
      numbered = unaudited-AreUpTo row.id 0 w.committed.attempts unused.unaudited;
      quiet = refl;
    }

-- Where no call of an external service is to fail, the queue is empty, the id that the server gives
-- is new and its text is read back as that id, and the retry gate is open for the task:
-- `dispatch_example_task` returns a row and a message. If the message is then delivered as it arrives
-- from JSON, and the task fails `n` times, no more often than the settings' maximum of retries, and
-- returns at the delivery after, its one row is COMPLETED with `n` retries counted, and no message is
-- left on the queue.
pub drive-dispatch_example_task :
    {env : Env} {tenacity : Tenacity World} {json : Json env}
    (receiver : Receiver env tenacity json) (errors : ℕ → TaskException) (n : ℕ)
    (registry : Registry) (tenant_id : Uuid) (document_url output_format : String) (w : World)
    → w.sent ≡ []
    → IsUnused (env.gen_random_uuid w.tick) w
    → env.uuid_of_text (env.uuid_text (env.gen_random_uuid w.tick))
      ≡ some (env.gen_random_uuid w.tick)
    → retry_gate_allows env registry.task_name tenant_id ≡ true
    → n ≤ env.settings.task_max_retries
    → let (r, queued) =
        dispatch_example_task env registry tenant_id document_url output_format (calm w) in
      (row : TaskExecution) × (message : TaskiqMessage) × (r ≡ ok (row, message))
      × IsCompleted row.id n (receiver.finish (drive receiver errors n queued))
drive-dispatch_example_task {env} {tenacity} {json} receiver errors n registry tenant_id
      document_url output_format w idle unused reads_back gate budget =
    let all_counted : 0 + n ≡ n = omega arith in
    let kicked = new_message env registry tenant_id document_url output_format w in
    let completes =
      drive-IsCompleted receiver errors n _ _ _ _
        (queued-IsAt env json registry tenant_id document_url output_format w unused reads_back
          gate)
        (record { queued = kicked; sent = ap (λ l. l ++ kicked ∷ []) idle; arrives = refl })
        (omega (arith, budget)) in
    rw (dispatch_example_task-calm env registry tenant_id document_url output_format w) (
      new_row env registry tenant_id document_url output_format w,
      kicked,
      refl,
      rw all_counted at completes,
    )

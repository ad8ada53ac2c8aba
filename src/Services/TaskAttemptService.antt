-- ===== src/Services/TaskAttemptService.antt =====
-- worker_template/services/task_attempt_service.py
use worker_template.Prelude.{
  ℕ, String, Option, none, some, Bool, true, false, ◌&&◌, List, [], ◌∷◌, ◌++◌, map, ltb, ◌==◌,
  filter, if◌then◌else◌,
}
use worker_template.Exec.{pure, ◌>>=◌, ◌>>◌}
use worker_template.Models.{
  Uuid, TaskStatus, TaskDispatchResult, dispatched, TaskAttempt, is_pending, is_open,
}
use worker_template.World.{Env, Worker, reading, execute, flush}

-- The first row of those with the greatest `created_at`.
abbrev pub later : TaskAttempt → Option TaskAttempt → TaskAttempt
later row none = row
later row (some other) = if ltb row.created_at other.created_at then other else row

-- `.order_by(created_at.desc()).limit(1)`, then `scalar_one_or_none()`. Rows of one instant come
-- in the order in which they were written.
unfoldable pub latest : List TaskAttempt → Option TaskAttempt
latest [] = none
latest (row ∷ rows) = some (later row (latest rows))

abbrev pub is_open_attempt : Uuid → ℕ → TaskAttempt → Bool
is_open_attempt task_execution_id attempt_number row =
    row.task_execution_id == task_execution_id
    && row.attempt_number == attempt_number
    && is_open row.dispatch_result

abbrev pub is_pending_attempt : Uuid → TaskAttempt → Bool
is_pending_attempt task_execution_id row =
    row.task_execution_id == task_execution_id && is_pending row.dispatch_result

-- `_get_latest_pending_or_dispatched_task_attempt`, which `get_task_attempt_dispatch_state` calls.
unfoldable pub get_task_attempt_dispatch_state : Uuid → ℕ → Worker (Option TaskAttempt)
get_task_attempt_dispatch_state task_execution_id attempt_number =
    execute (λ t. latest (filter (is_open_attempt task_execution_id attempt_number) t.attempts))

unfoldable pub get_latest_pending_task_attempt : Uuid → Worker (Option TaskAttempt)
get_latest_pending_task_attempt task_execution_id =
    execute (λ t. latest (filter (is_pending_attempt task_execution_id) t.attempts))

-- The `UPDATE` of `dispatch_result` by the primary key.
unfoldable pub set_dispatched : Uuid → List TaskAttempt → List TaskAttempt
set_dispatched id =
    map (λ row. if row.id == id then record row { dispatch_result = dispatched } else row)

unfoldable pub mark_found : Option TaskAttempt → Worker Bool
mark_found none = pure false
mark_found (some attempt) =
    if is_pending attempt.dispatch_result
    then (do flush (λ t. record t { attempts = set_dispatched attempt.id t.attempts }); pure true)
    else pure true

unfoldable pub mark_task_attempt_dispatched : Uuid → ℕ → Worker Bool
mark_task_attempt_dispatched task_execution_id attempt_number = do
  attempt ← get_task_attempt_dispatch_state task_execution_id attempt_number
  mark_found attempt

-- The arguments of `record_task_attempt`.
pub record AttemptFields : Type 0 where
  pub task_execution_id : Uuid
  pub tenant_id : Uuid
  pub attempt_number : ℕ
  pub status_before : TaskStatus
  pub status_after : TaskStatus
  pub error_detail : Option String
  pub dispatch_result : TaskDispatchResult

module _ (env : Env) where
  -- The server fills in `id`, `created_at` and `updated_at`.
  unfoldable pub record_task_attempt : AttemptFields → Worker TaskAttempt
  record_task_attempt given = do
    tick ← reading
    let attempt : TaskAttempt = record {
      id = env.gen_random_uuid tick;
      created_at = env.now tick;
      updated_at = env.now tick;
      task_execution_id = given.task_execution_id;
      tenant_id = given.tenant_id;
      attempt_number = given.attempt_number;
      status_before = given.status_before;
      status_after = given.status_after;
      error_detail = given.error_detail;
      dispatch_result = given.dispatch_result;
    }
    flush (λ t. record t { attempts = t.attempts ++ attempt ∷ [] })
    pure attempt

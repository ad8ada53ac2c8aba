-- ===== src/Services/TaskExecutionService.antt =====
-- worker_template/services/task_execution_service.py
pub mod Updates
pub mod Listing
use worker_template.Prelude.{
  ℕ, zero, suc, ◌+◌, String, Option, none, some, Bool, true, false, ◌&&◌, List, [], ◌∷◌, ◌++◌, map,
  leb, ltb, ◌==◌, is_none, keep_or, filter, take, drop, if◌then◌else◌,
}
use worker_template.Exec.{Result, ok, err, failure, Exec, pure, lift, gets, ◌>>=◌, ◌>>◌}
use worker_template.Models.{
  Uuid, TaskStatus, TaskExecution, Tables, running, retrying, status_eq, is_terminal,
}
use worker_template.World.{Env, World, Worker, reading, execute, flush, refresh}

-- `result.scalar_one_or_none()`
abbrev pub scalar_one_or_none : {A : Type 0} → List A → Result (Option A)
scalar_one_or_none [] = ok none
scalar_one_or_none (x ∷ []) = ok (some x)
scalar_one_or_none (x ∷ y ∷ rest) = err (failure "MultipleResultsFound")

-- The rows of one id, and of one tenant where a tenant is given.
abbrev pub is_selected : Uuid → Option Uuid → TaskExecution → Bool
is_selected task_id none row = row.id == task_id
is_selected task_id (some tenant_id) row = row.id == task_id && row.tenant_id == tenant_id

unfoldable pub get_task_execution : Uuid → Option Uuid → Worker (Option TaskExecution)
get_task_execution task_id tenant_id = do
  rows ← execute (λ t. filter (is_selected task_id tenant_id) t.executions)
  lift (scalar_one_or_none rows)

abbrev pub keep_steps : Option ℕ → ℕ → ℕ
keep_steps none old = old
keep_steps (some n) old = n

-- The keyword arguments of `update_task_status`.
pub record StatusFields : Type 0 where
  pub status_message : Option String
  pub error_detail : Option String
  pub result_url : Option String
  pub completed_steps : Option ℕ

-- The assignments of `update_task_status`, at the instant `now`.
unfoldable pub apply_status : TaskStatus → StatusFields → ℕ → TaskExecution → TaskExecution
unfolding is_terminal
apply_status status given now task = record task {
  status = status;
  status_message = keep_or given.status_message task.status_message;
  error_detail = keep_or given.error_detail task.error_detail;
  result_url = keep_or given.result_url task.result_url;
  completed_steps = keep_steps given.completed_steps task.completed_steps;
  started_at =
      if status_eq status running && is_none task.started_at then some now else task.started_at;
  completed_at = if is_terminal status then some now else task.completed_at;
  retry_count = if status_eq status retrying then task.retry_count + 1 else task.retry_count;
}

-- The `UPDATE` of one row by its primary key.
unfoldable pub write_execution : TaskExecution → List TaskExecution → List TaskExecution
write_execution task = map (λ row. if row.id == task.id then task else row)

-- The arguments of `create_task_execution`. The copy of `config_snapshot` is a value of its own.
pub record NewTask : Type 0 where
  pub task_name : String
  pub tenant_id : Uuid
  pub config_snapshot : Option String
  pub parent_task_id : Option Uuid
  pub max_retries : ℕ
  pub total_steps : Option ℕ

-- The arguments that `create_task_execution` takes where they are left out.
unfoldable pub default_task : Env → String → Uuid → NewTask
default_task env task_name tenant_id = record {
  task_name = task_name;
  tenant_id = tenant_id;
  config_snapshot = none;
  parent_task_id = none;
  max_retries = env.settings.task_max_retries;
  total_steps = none;
}

-- `order_by(created_at.desc())` and `order_by(created_at)`; rows of one instant keep their order.
unfoldable pub insert_by :
    (TaskExecution → TaskExecution → Bool) → TaskExecution → List TaskExecution → List TaskExecution
insert_by first row [] = row ∷ []
insert_by first row (other ∷ rows) =
    let rest = insert_by first row rows in
    if first other row then other ∷ rest else row ∷ other ∷ rows

unfoldable pub order_by :
    (TaskExecution → TaskExecution → Bool) → List TaskExecution → List TaskExecution
order_by first [] = []
order_by first (row ∷ rows) = insert_by first row (order_by first rows)

abbrev pub newest_first : TaskExecution → TaskExecution → Bool
newest_first a b = ltb b.created_at a.created_at

abbrev pub oldest_first : TaskExecution → TaskExecution → Bool
oldest_first a b = ltb a.created_at b.created_at

abbrev pub is_of_tenant : Uuid → Option TaskStatus → TaskExecution → Bool
is_of_tenant tenant_id none row = row.tenant_id == tenant_id
is_of_tenant tenant_id (some status) row = row.tenant_id == tenant_id && status_eq row.status status

unfoldable pub list_task_executions : Uuid → Option TaskStatus → ℕ → ℕ → Worker (List TaskExecution)
list_task_executions tenant_id status_filter offset limit = execute (λ t. take limit (
    drop offset
      (order_by newest_first (filter (is_of_tenant tenant_id status_filter) t.executions))))

abbrev pub is_child_of : Uuid → TaskExecution → Bool
is_child_of parent_task_id row = elim row.parent_task_id [
  | none ↦ false
  | some p ↦ p == parent_task_id
]

unfoldable pub get_child_tasks : Uuid → Worker (List TaskExecution)
get_child_tasks parent_task_id =
    execute (λ t. order_by oldest_first (filter (is_child_of parent_task_id) t.executions))

module _ (env : Env) where
  -- The server fills in `id`, `created_at` and `updated_at`; the other columns have their defaults.
  unfoldable pub create_task_execution : NewTask → Worker TaskExecution
  create_task_execution given = do
    tick ← reading
    let task : TaskExecution = record {
      id = env.gen_random_uuid tick;
      created_at = env.now tick;
      updated_at = env.now tick;
      task_name = given.task_name;
      status = TaskStatus.pending;
      total_steps = given.total_steps;
      completed_steps = 0;
      status_message = none;
      tenant_id = given.tenant_id;
      parent_task_id = given.parent_task_id;
      config_snapshot = given.config_snapshot;
      result_url = none;
      error_detail = none;
      started_at = none;
      completed_at = none;
      retry_count = 0;
      max_retries = given.max_retries;
    }
    flush (λ t. record t { executions = t.executions ++ task ∷ [] })
    refresh
    pure task

  unfoldable pub store_status :
      TaskStatus → StatusFields → Option TaskExecution → Worker (Option TaskExecution)
  store_status status given none = pure none
  store_status status given (some task) = do
    tick ← reading
    let changed = apply_status status given (env.now tick) task
    flush (λ t. record t { executions = write_execution changed t.executions })
    refresh
    pure (some changed)

  unfoldable pub update_task_status :
      Uuid → TaskStatus → StatusFields → Worker (Option TaskExecution)
  update_task_status task_id status given = do
    task ← get_task_execution task_id none
    store_status status given task

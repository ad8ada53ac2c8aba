-- ===== src/Models.antt =====
-- worker_template/models: the two tables and their enumerations. A UUID is the number that it
-- stands for, and an instant is a number. The integer columns are counters and start at 0 or more.
mod Status
pub use Status.{
  TaskStatus, pending, queued, running, retrying, completed, failed, cancelled, partial,
  TaskDispatchResult, blocked, dispatched, dispatch_failed, shadowed, status_eq, status_eq_iff,
}
unfoldable pub use Status.{value, is_terminal, is_pending, is_open}
use worker_template.Prelude.{ℕ, String, Option, List}

abbrev pub Uuid : Type 0
Uuid = ℕ

-- The columns that `TimestampedTable` adds come first.
pub record TaskExecution : Type 0 where
  pub id : Uuid
  pub created_at : ℕ
  pub updated_at : ℕ
  pub task_name : String
  pub status : TaskStatus
  pub total_steps : Option ℕ
  pub completed_steps : ℕ
  pub status_message : Option String
  pub tenant_id : Uuid
  pub parent_task_id : Option Uuid
  pub config_snapshot : Option String
  pub result_url : Option String
  pub error_detail : Option String
  pub started_at : Option ℕ
  pub completed_at : Option ℕ
  pub retry_count : ℕ
  pub max_retries : ℕ

pub record TaskAttempt : Type 0 where
  pub id : Uuid
  pub created_at : ℕ
  pub updated_at : ℕ
  pub task_execution_id : Uuid
  pub tenant_id : Uuid
  pub attempt_number : ℕ
  pub status_before : TaskStatus
  pub status_after : TaskStatus
  pub error_detail : Option String
  pub dispatch_result : TaskDispatchResult

pub record Tables : Type 0 where
  pub executions : List TaskExecution
  pub attempts : List TaskAttempt

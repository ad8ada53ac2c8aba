-- ===== src/Realtime.antt =====
-- worker_template/realtime: the event payloads, and what is handed to Socket.IO.
use worker_template.Prelude.{ℕ, String, Option}
use worker_template.Models.{Uuid}

abbrev pub task_status_changed : String
task_status_changed = "task_status_changed"

abbrev pub task_completed : String
task_completed = "task_completed"

abbrev pub task_failed : String
task_failed = "task_failed"

pub record TaskStatusEvent : Type 0 where
  pub task_id : Uuid
  pub task_name : String
  pub status : String
  pub total_steps : Option ℕ
  pub completed_steps : ℕ
  pub status_message : Option String
  pub error_detail : Option String
  pub tenant_id : Uuid

pub record TaskCompletedEvent : Type 0 where
  pub task_id : Uuid
  pub task_name : String
  pub result_url : Option String
  pub tenant_id : Uuid

pub record TaskFailedEvent : Type 0 where
  pub task_id : Uuid
  pub task_name : String
  pub error_detail : Option String
  pub tenant_id : Uuid

-- The payloads that the worker emits.
pub data EventData : Type 0 where
  status_event : TaskStatusEvent → EventData
  completed_event : TaskCompletedEvent → EventData
  failed_event : TaskFailedEvent → EventData

-- One call of `AsyncServer.emit`.
pub record Emission : Type 0 where
  pub event : String
  pub payload : EventData
  pub room : String

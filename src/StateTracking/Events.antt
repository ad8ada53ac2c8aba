-- ===== src/StateTracking/Events.antt =====
-- `_emit_status_event` of state_tracking.py.
use worker_template.Prelude.{String, Option, none, some}
use worker_template.Exec.{pure}
use worker_template.Models.{Uuid, TaskStatus, completed, failed, value}
use worker_template.Message.{TaskiqMessage}
use worker_template.Realtime.{
  task_status_changed, task_completed, task_failed, EventData, status_event, completed_event,
  failed_event,
}
use worker_template.World.{Env, Worker}
use worker_template.Emitter.{swallow, emit_task_event}
use worker_template.StateTracking.Extract.{extract_task_execution_id, extract_tenant_id}

-- The status events share the fields that are given.
abbrev pub event_name : TaskStatus → String
event_name completed = task_completed
event_name failed = task_failed
event_name _ = task_status_changed

module _ (env : Env) where
  unfoldable pub event_data :
      TaskStatus → Uuid → String → Uuid → Option String → Option String → EventData
  event_data completed task_id task_name tenant_id status_message error_detail =
      completed_event (record {
        task_id = task_id;
        task_name = task_name;
        result_url = none;
        tenant_id = tenant_id;
      })
  event_data failed task_id task_name tenant_id status_message error_detail = failed_event (record {
    task_id = task_id;
    task_name = task_name;
    error_detail = error_detail;
    tenant_id = tenant_id;
  })
  event_data status task_id task_name tenant_id status_message error_detail = status_event (record {
    task_id = task_id;
    task_name = task_name;
    status = value status;
    total_steps = none;
    completed_steps = 0;
    status_message = status_message;
    error_detail = none;
    tenant_id = tenant_id;
  })

  unfoldable pub emit_for :
      TaskiqMessage
      → TaskStatus
      → Option String
      → Option String
      → Option Uuid
      → Option Uuid
      → Worker (Unit {0})
  emit_for message status status_message error_detail (some task_id) (some tenant_id) = swallow (
      emit_task_event env tenant_id (event_name status)
        (event_data status task_id message.task_name tenant_id status_message error_detail))
  emit_for message status status_message error_detail _ _ = pure tt

  unfoldable pub emit_status_event :
      TaskiqMessage → TaskStatus → Option String → Option String → Worker (Unit {0})
  emit_status_event message status status_message error_detail =
      emit_for message status status_message error_detail (extract_task_execution_id env message)
        (extract_tenant_id env message)

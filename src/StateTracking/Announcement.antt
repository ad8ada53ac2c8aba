-- ===== src/StateTracking/Announcement.antt =====
-- What `_emit_status_event` of state_tracking.py is to announce: the events that a client of the
-- realtime contracts is told, written apart from the code.
use worker_template.Prelude.{String, ◌≡◌, refl, Option, none, some, List, [], ◌∷◌}
use worker_template.Text.{◌+++◌}
use worker_template.Models.{Uuid, TaskStatus, value}
use worker_template.Message.{TaskiqMessage}
use worker_template.Realtime.{EventData, status_event, completed_event, failed_event, Emission}
use worker_template.World.{Env}
use worker_template.StateTracking.Extract.{extract_task_execution_id, extract_tenant_id}
use worker_template.StateTracking.Events.{event_name, event_data}

abbrev unfinished : String → Uuid → String → Uuid → Option String → EventData
unfinished name task_id task_name tenant_id said = status_event (record {
  task_id = task_id;
  task_name = task_name;
  status = name;
  total_steps = none;
  completed_steps = 0;
  status_message = said;
  error_detail = none;
  tenant_id = tenant_id;
})

-- What a client of the room is told of a task: COMPLETED and FAILED have an event of their own, and
-- every other status is named in the event that all of them share.
abbrev pub announcement :
    TaskStatus → Uuid → String → Uuid → Option String → Option String → String × EventData
announcement TaskStatus.completed task_id task_name tenant_id said detail = (
  "task_completed",
  completed_event (record {
    task_id = task_id;
    task_name = task_name;
    result_url = none;
    tenant_id = tenant_id;
  }),
)
announcement TaskStatus.failed task_id task_name tenant_id said detail = (
  "task_failed",
  failed_event (record {
    task_id = task_id;
    task_name = task_name;
    error_detail = detail;
    tenant_id = tenant_id;
  }),
)
announcement TaskStatus.pending task_id task_name tenant_id said detail =
    ("task_status_changed", unfinished "pending" task_id task_name tenant_id said)
announcement TaskStatus.running task_id task_name tenant_id said detail =
    ("task_status_changed", unfinished "running" task_id task_name tenant_id said)
announcement TaskStatus.retrying task_id task_name tenant_id said detail =
    ("task_status_changed", unfinished "retrying" task_id task_name tenant_id said)
announcement TaskStatus.queued task_id task_name tenant_id said detail =
    ("task_status_changed", unfinished "queued" task_id task_name tenant_id said)
announcement TaskStatus.cancelled task_id task_name tenant_id said detail =
    ("task_status_changed", unfinished "cancelled" task_id task_name tenant_id said)
announcement TaskStatus.partial task_id task_name tenant_id said detail =
    ("task_status_changed", unfinished "partial" task_id task_name tenant_id said)

pub announces :
    (env : Env) (status : TaskStatus) (task_id : Uuid) (task_name : String) (tenant_id : Uuid)
    (said detail : Option String)
    → announcement status task_id task_name tenant_id said detail
      ≡ (event_name status, event_data env status task_id task_name tenant_id said detail)
unfolding event_data value
announces env TaskStatus.pending task_id task_name tenant_id said detail = refl
announces env TaskStatus.queued task_id task_name tenant_id said detail = refl
announces env TaskStatus.running task_id task_name tenant_id said detail = refl
announces env TaskStatus.retrying task_id task_name tenant_id said detail = refl
announces env TaskStatus.completed task_id task_name tenant_id said detail = refl
announces env TaskStatus.failed task_id task_name tenant_id said detail = refl
announces env TaskStatus.cancelled task_id task_name tenant_id said detail = refl
announces env TaskStatus.partial task_id task_name tenant_id said detail = refl

-- The event of a status change, where the message names a task execution and a tenant.
abbrev pub emission_for :
    Env
    → TaskiqMessage
    → TaskStatus
    → Option String
    → Option String
    → Option Uuid
    → Option Uuid
    → List Emission
emission_for env message status status_message error_detail (some task_id) (some tenant_id) =
    let (name, told) =
      announcement status task_id message.task_name tenant_id status_message error_detail in
    record { event = name; payload = told; room = "org:" +++ env.uuid_text tenant_id } ∷ []
emission_for env message status status_message error_detail _ _ = []

abbrev pub expected_emission :
    Env → TaskiqMessage → TaskStatus → Option String → Option String → List Emission
expected_emission env message status status_message error_detail =
    emission_for env message status status_message error_detail
      (extract_task_execution_id env message) (extract_tenant_id env message)

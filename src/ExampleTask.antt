-- ===== src/ExampleTask.antt =====
-- `dispatch_example_task` of worker_template/tasks/example_task.py, with its input of
-- worker_template/tasks/contracts.py.
pub mod Tracked
pub mod Body
use worker_template.Prelude.{ℕ, String, Option, none, some, []}
use worker_template.Text.{str_nat}
use worker_template.Exec.{pure, gets, ◌>>=◌, ◌>>◌}
use worker_template.Models.{Uuid, TaskExecution}
use worker_template.Message.{Value, null, uuid, dict, plain, Fields, end, field, TaskiqMessage}
use worker_template.World.{Env, World, Worker, reading, with_session, commit, kiq}
use worker_template.Services.TaskExecutionService.{default_task, create_task_execution}

-- The fields of `TaskInput` come first.
pub record ExampleTaskInput : Type 0 where
  pub tenant_id : Uuid
  pub priority : ℕ
  pub parent_task_id : Option Uuid
  pub task_execution_id : Option Uuid
  pub document_url : String
  pub output_format : String

abbrev pub default_priority : ℕ
default_priority = 5

abbrev pub optional_uuid : Option Uuid → Value
optional_uuid none = null
optional_uuid (some u) = uuid u

-- The entries of `task_input.model_dump()`.
unfoldable pub model_dump : ExampleTaskInput → Fields
model_dump input = field "tenant_id" (uuid input.tenant_id) (
    field "priority" (plain (str_nat input.priority)) (
      field "parent_task_id" (optional_uuid input.parent_task_id) (
        field "task_execution_id" (optional_uuid input.task_execution_id) (
          field "document_url" (plain input.document_url)
            (field "output_format" (plain input.output_format) end)))))

-- What the broker library gives: the task's registered name, the id of a new message, and the `str()`
-- of a `dict`.
pub record Registry : Type 0 where
  pub task_name : String
  pub new_task_id : ℕ → String
  pub dict_text : Fields → String

module _ (env : Env) (registry : Registry) where
  abbrev pub input_for : Uuid → String → String → TaskExecution → ExampleTaskInput
  input_for tenant_id document_url output_format task_execution = record {
    tenant_id = tenant_id;
    priority = default_priority;
    parent_task_id = none;
    task_execution_id = some task_execution.id;
    document_url = document_url;
    output_format = output_format;
  }

  -- The message of `example_task.kiq(raw_input=…)`; the task has no labels.
  unfoldable pub kicked_message : ExampleTaskInput → ℕ → TaskiqMessage
  kicked_message input tick = record {
    task_id = registry.new_task_id tick;
    task_name = registry.task_name;
    labels = end;
    args = [];
    kwargs =
        field "raw_input" (dict (registry.dict_text (model_dump input)) (model_dump input)) end;
  }

  -- The block of `async with`.
  unfoldable pub create_tracked : Uuid → Worker TaskExecution
  create_tracked tenant_id = do
    task_execution ← create_task_execution env (default_task env registry.task_name tenant_id)
    commit
    pure task_execution

  unfoldable pub dispatch_example_task :
      Uuid → String → String → Worker (TaskExecution × TaskiqMessage)
  dispatch_example_task tenant_id document_url output_format = do
    task_execution ← with_session (create_tracked tenant_id)
    tick ← reading
    let kicked = kicked_message (input_for tenant_id document_url output_format task_execution) tick
    kiq kicked
    pure (task_execution, kicked)

-- ===== src/Tests/Dispatches.antt =====
-- Examples: a task from its dispatch to its end.
use worker_template.Prelude.{some, refl, ◌≡◌, ◌∷◌, [], arith}
use worker_template.Text.{str_nat}
use worker_template.Exec.{ok}
use worker_template.Models.{TaskExecution}
use worker_template.Message.{TaskiqMessage}
use worker_template.World.{World}
use worker_template.StateTracking.Calm.Services.{calm}
use worker_template.StateTracking.Drive.{drive}
use worker_template.StateTracking.Drive.Completion.{IsCompleted}
use worker_template.StateTracking.Drive.Completed.{drive-dispatch_example_task}
use worker_template.ExampleTask.{Registry, dispatch_example_task}
use worker_template.Tests.Receivers.{receiver, errors}
use worker_template.Tests.Fixtures.{gate_open_5, env, other_task, world_with}

abbrev import_registry : Registry
import_registry = record {
  task_name = "import";
  new_task_id = λ n. "m";
  dict_text = λ entries. "{}";
}

abbrev idle_world : World
idle_world = world_with (other_task ∷ [])

reads_100 : env.uuid_of_text (env.uuid_text 100) ≡ some 100
unfolding str_nat
reads_100 = refl

-- The task fails twice and returns at the third delivery.
drive-dispatch_example_task_example :
    let (r, queued) =
      dispatch_example_task env import_registry 5 "s3://in/a" "pdf" (calm idle_world) in
    (row : TaskExecution) × (message : TaskiqMessage) × (r ≡ ok (row, message))
    × IsCompleted row.id 2 (receiver.finish (drive receiver errors 2 queued))
drive-dispatch_example_task_example =
    drive-dispatch_example_task receiver errors 2 import_registry 5 "s3://in/a" "pdf" idle_world
      refl (record { unlisted = refl; unaudited = tt }) reads_100 gate_open_5 (omega arith)

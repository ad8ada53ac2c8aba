-- ===== src/ExampleTask/Body.antt =====
-- The body of `example_task` of worker_template/tasks/example_task.py, for an input that
-- `ExampleTaskInput.model_validate` has accepted.
use worker_template.Prelude.{ℕ, String, Bool, true, Option, none, some, List, [], ◌∷◌}
use worker_template.Text.{◌+++◌, str_nat}
use worker_template.Message.{plain, Fields, end, field}
use worker_template.Middleware.Context.{Context}
use worker_template.Middleware.LogContext.{get_logging_context, update}
use worker_template.ExampleTask.{ExampleTaskInput}

-- `ExampleTaskOutput`, with the fields of `TaskOutput` first.
pub record ExampleTaskOutput : Type 0 where
  pub success : Bool
  pub result_url : Option String
  pub error_detail : Option String
  pub processed_url : Option String
  pub page_count : Option ℕ

-- A record of the log: the event and its `extra`.
pub record Logged : Type 0 where
  pub event : String
  pub extra : Fields

abbrev pub result_url_of : ExampleTaskInput → String
result_url_of input = "s3://results/" +++ input.document_url +++ "." +++ input.output_format

abbrev pub step_fields : String → ℕ → Fields
step_fields name number = field "step" (plain name) (field "step_num" (plain (str_nat number)) end)

-- `{**context, …}`
abbrev pub logged_with : Context → String → Fields → Logged
logged_with c event extra = record { event = event; extra = update (get_logging_context c) extra }

-- The records that the task logs, and its output.
unfoldable pub example_task : Context → ExampleTaskInput → List Logged × ExampleTaskOutput
example_task c input =
    let result_url = result_url_of input in
    (
      logged_with c "example_task_started" (
            field "document_url" (plain input.document_url)
              (field "output_format" (plain input.output_format) end))
          ∷ logged_with c "example_task_step" (step_fields "download" 1)
          ∷ logged_with c "example_task_step" (step_fields "process" 2)
          ∷ logged_with c "example_task_step" (step_fields "upload" 3)
          ∷ logged_with c "example_task_completed" (field "result_url" (plain result_url) end)
          ∷ [],
      record {
        success = true;
        result_url = some result_url;
        error_detail = none;
        processed_url = some result_url;
        page_count = some 1;
      },
    )

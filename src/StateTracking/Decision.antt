-- ===== src/StateTracking/Decision.antt =====
-- `_ErrorContext`, `_RetryDecision` and `_resolve_retry_decision` of state_tracking.py.
use worker_template.Prelude.{
  ℕ, zero, suc, ◌+◌, String, Option, none, some, Bool, true, false, not, ◌&&◌, str_eq, ltb, ◌==◌,
  if◌then◌else◌,
}
use worker_template.Text.{◌+++◌, str_nat}
use worker_template.Models.{Uuid, TaskStatus, TaskExecution, running, retrying, failed, status_eq}
use worker_template.Message.{TaskiqMessage}
use worker_template.World.{Env, OnErrorAttempt}
use worker_template.StateTracking.Gate.{retry_gate_allows}

-- The session, the attempt and the result of the source's record are parts of the `World`.
pub record ErrorContext : Type 0 where
  pub task : Option TaskExecution
  pub task_execution_id : Uuid
  pub message : TaskiqMessage
  pub error_detail : String

pub record RetryDecision : Type 0 where
  pub status : TaskStatus
  pub status_msg : String
  pub retry_already_recorded : Bool
  pub should_retry : Bool
  pub retry_allowed : Bool
  pub retry_shadowed : Bool
  pub status_before : TaskStatus
  pub attempt_number : ℕ

abbrev pub same_message : Option String → Option String → Bool
same_message none none = true
same_message (some a) (some b) = str_eq a b
same_message _ _ = false

-- `x or d` of a text and of a number.
abbrev pub text_or : Option String → String → String
text_or none d = d
text_or (some a) d = if str_eq a "" then d else a

abbrev pub number_or : Option ℕ → ℕ → ℕ
number_or none d = d
number_or (some zero) d = d
number_or (some (suc n)) d = suc n

abbrev pub recorded_in : Option TaskStatus → Option ℕ → Option String → Option TaskExecution → Bool
recorded_in (some status) (some retry_count) message (some task) =
    status_eq task.status status
    && (task.retry_count == retry_count)
    && same_message task.status_message message
recorded_in _ _ _ _ = false

-- The row is as this invocation has written it.
unfoldable pub already_recorded : OnErrorAttempt → Option TaskExecution → Bool
already_recorded attempt task =
    recorded_in attempt.recorded_status attempt.recorded_retry_count attempt.status_message task

unfoldable pub may_retry : Option TaskExecution → Bool
may_retry none = false
may_retry (some task) = ltb task.retry_count task.max_retries

abbrev pub retrying_message : TaskExecution → String
retrying_message task =
    "Retrying (" +++ str_nat (task.retry_count + 1) +++ "/" +++ str_nat task.max_retries +++ ")"

abbrev pub max_retries_message : String
max_retries_message = "Task failed (max retries exceeded)"

abbrev pub shadowed_message : String
shadowed_message = "Retry shadowed (automatic retry disabled)"

abbrev pub disabled_message : String
disabled_message = "Task failed (automatic retry disabled)"

-- The status and the message of a first decision.
unfoldable pub fresh_outcome : Option TaskExecution → Bool → Bool → Bool → TaskStatus × String
fresh_outcome (some task) true true shadowed = (retrying, retrying_message task)
fresh_outcome task true false true = (retrying, shadowed_message)
fresh_outcome task true false false = (failed, disabled_message)
fresh_outcome task _ _ _ = (failed, max_retries_message)

abbrev pub recorded_outcome : Option TaskStatus → Option String → TaskStatus × String
recorded_outcome none message = (failed, text_or message max_retries_message)
recorded_outcome (some status) message = (status, text_or message max_retries_message)

abbrev pub before : Option TaskExecution → TaskStatus
before none = running
before (some task) = task.status

abbrev pub next_number : Option TaskExecution → ℕ
next_number none = 1
next_number (some task) = task.retry_count + 1

module _ (env : Env) where
  unfoldable pub gate_for : TaskiqMessage → Option TaskExecution → Bool
  unfolding may_retry
  gate_for message none = false
  gate_for message (some task) =
      may_retry (some task) && retry_gate_allows env message.task_name task.tenant_id

  unfoldable pub resolve_retry_decision : ErrorContext → OnErrorAttempt → RetryDecision
  unfolding already_recorded may_retry gate_for fresh_outcome
  resolve_retry_decision ctx attempt =
      let recorded = already_recorded attempt ctx.task in
      let should_retry = may_retry ctx.task in
      let allowed = gate_for ctx.message ctx.task in
      let shadowed = should_retry && (not allowed && env.settings.task_retry_shadow_mode) in
      let outcome =
        if recorded
        then recorded_outcome attempt.recorded_status attempt.status_message
        else fresh_outcome ctx.task should_retry allowed shadowed in
      record {
        status = outcome.0;
        status_msg = outcome.1;
        retry_already_recorded = recorded;
        should_retry = should_retry;
        retry_allowed = allowed;
        retry_shadowed = shadowed;
        status_before = before ctx.task;
        attempt_number = next_number ctx.task;
      }

-- ===== src/StateTracking/Calm/Refused.antt =====
-- A failed task that is not retried, where every call succeeds: the retries are used up, or the gate
-- is shut, with or without the shadow mode.
use mathlib.Core.List.{append-nil}
use worker_template.Prelude.{
  ◌+◌, String, ◌≡◌, refl, Bool, true, false, ◌&&◌, none, some, List, [], ◌∷◌, ◌++◌, filter,
  if◌then◌else◌,
}
use worker_template.Exec.{ok, pure, gets, modify, ◌>>=◌}
use worker_template.Models.{
  Uuid, TaskStatus, retrying, failed, blocked, shadowed, TaskExecution, TaskAttempt, Tables,
}
use worker_template.Message.{TaskiqMessage, TaskiqResult}
use worker_template.World.{Env, World, OnErrorAttempt, effect, reading, flush, commit}
use worker_template.Services.TaskExecutionService.{is_selected, apply_status, write_execution}
use worker_template.Services.TaskAttemptService.{AttemptFields, record_task_attempt}
use worker_template.StateTracking.Decision.{
  RetryDecision, already_recorded, may_retry, gate_for, fresh_outcome, shadowed_message,
  disabled_message, max_retries_message, resolve_retry_decision,
}
use worker_template.StateTracking.Recording.{
  error_fields, expected_retry_count, tenant_of, record_attempt_of, record_decision,
  record_initial_error_status,
}
use worker_template.StateTracking.Handlers.{
  new_attempt, handle_refused, mark_shadowed, decide_and_record,
}
use worker_template.StateTracking.Calm.Services.{new_row, update_task_status-calm}
use worker_template.StateTracking.Calm.Dispatch.{context}

-- What is recorded where a retry is left (`below`) or not, and is shadowed or not.
abbrev pub refusal : Bool → Bool → TaskStatus × String
refusal below shadow =
    if below
    then (if shadow then (retrying, shadowed_message) else (failed, disabled_message))
    else (failed, max_retries_message)

module _ (env : Env) (id : Uuid) (message : TaskiqMessage) (error_detail : String)
    (task : TaskExecution) where
  module _ (below shadow : Bool) where
    abbrev pub refused : RetryDecision
    refused = record {
      status = (refusal below shadow).0;
      status_msg = (refusal below shadow).1;
      retry_already_recorded = false;
      should_retry = below;
      retry_allowed = false;
      retry_shadowed = shadow;
      status_before = task.status;
      attempt_number = task.retry_count + 1;
    }

    -- The row of the task once the refusal is recorded.
    abbrev pub refused_task : World → TaskExecution
    refused_task w =
        apply_status (refusal below shadow).0 (error_fields error_detail (refusal below shadow).1)
          (env.now w.tick) task

    -- The audit row of a retry that was left and was not taken.
    abbrev pub refused_fields : AttemptFields
    refused_fields = record {
      task_execution_id = id;
      tenant_id = task.tenant_id;
      attempt_number = task.retry_count + 1;
      status_before = task.status;
      status_after = (refusal below shadow).0;
      error_detail = some error_detail;
      dispatch_result = if shadow then shadowed else blocked;
    }

    abbrev pub refused_rows : World → List TaskAttempt
    refused_rows w =
        if below then new_row env refused_fields (record w { tick = w.tick + 1 }) ∷ [] else []

    abbrev pub refused_tables : World → Tables
    refused_tables w = record {
      executions = write_execution (refused_task w) w.tables.executions;
      attempts = w.tables.attempts ++ refused_rows w;
    }

    -- What the invocation remembers of the refusal.
    abbrev pub refused_attempt : OnErrorAttempt
    refused_attempt = record {
      recorded_status = some (refusal below shadow).0;
      recorded_retry_count = expected_retry_count (some task) (refusal below shadow).0;
      status_message = some (refusal below shadow).1;
      attempt_number = none;
    }

    abbrev pub refused_result : TaskiqResult → TaskiqResult
    refused_result result = if shadow then record result { shadow_retry = true } else result

    abbrev recorded : World → World
    recorded w = record w {
      tables = refused_tables w;
      attempt = refused_attempt;
      schedule = [];
      tick = if below then w.tick + 1 + 1 else w.tick + 1;
    }

    abbrev pub refused_world : World → World
    refused_world w = record (recorded w) {
      committed = refused_tables w;
      result = refused_result w.result;
    }

  refusal_fresh :
      (below shadow : Bool)
      → fresh_outcome (some task) below false (below && shadow) ≡ refusal below (below && shadow)
  unfolding fresh_outcome
  refusal_fresh true true = refl
  refusal_fresh true false = refl
  refusal_fresh false shadow = refl

  resolve_refused :
      (below : Bool)
      → may_retry (some task) ≡ below
      → gate_for env message (some task) ≡ false
      → resolve_retry_decision env (context env id message error_detail task) new_attempt
        ≡ refused below (below && env.settings.task_retry_shadow_mode)
  unfolding resolve_retry_decision already_recorded may_retry gate_for
  resolve_refused false left shut = simp left
  resolve_refused true left shut =
      simp (left, rw left at shut, refusal_fresh true env.settings.task_retry_shadow_mode)

  record_refusal :
      (below shadow : Bool) (w : World)
      → filter (is_selected id none) w.tables.executions ≡ task ∷ []
      → record_initial_error_status env
          (context env id message error_detail task)
          (refused below shadow)
          (record w { attempt = new_attempt; schedule = [] })
        ≡ (ok tt, recorded below shadow w)
  unfolding record_initial_error_status record_decision record_attempt_of tenant_of
      record_task_attempt reading flush effect modify pure ◌>>=◌
  record_refusal true shadow w e =
      rw
        (update_task_status-calm env id (refusal true shadow).0 _
          (record w { attempt = new_attempt }) task e)
        refl
  record_refusal false shadow w e =
      rw
        (update_task_status-calm env id (refusal false shadow).0 _
          (record w { attempt = new_attempt }) task e)
        (rw append-nil refl)

  mark_refusal :
      (below shadow : Bool) (w : World)
      → mark_shadowed
          (refused below shadow)
          (record (recorded below shadow w) { committed = (recorded below shadow w).tables })
        ≡ (ok tt, refused_world below shadow w)
  unfolding mark_shadowed modify pure
  mark_refusal below true w = refl
  mark_refusal below false w = refl

  -- The whole of the work inside the session.
  pub refusal_recorded :
      (below : Bool) (w : World)
      → may_retry (some task) ≡ below
      → gate_for env message (some task) ≡ false
      → filter (is_selected id none) w.tables.executions ≡ task ∷ []
      → let shadow = below && env.settings.task_retry_shadow_mode in
        decide_and_record env
          (context env id message error_detail task)
          (record w { attempt = new_attempt; schedule = [] })
        ≡ (ok (refusal below shadow), refused_world below shadow w)
  unfolding decide_and_record handle_refused commit effect gets pure ◌>>=◌
  refusal_recorded below w left shut found =
      let shadow = below && env.settings.task_retry_shadow_mode in
      rw (resolve_refused below left shut)
        (rw (record_refusal below shadow w found) (rw (mark_refusal below shadow w) refl))

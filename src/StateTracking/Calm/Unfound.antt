-- ===== src/StateTracking/Calm/Unfound.antt =====
-- `on_error` where no row or more than one has the id, and every call succeeds.
use worker_template.Prelude.{◌≡◌, refl, ap, none, some, List, [], ◌∷◌, filter}
use worker_template.Exec.{failure, ok, err, pure, lift, gets, modify, ◌>>=◌}
use worker_template.Models.{Uuid, failed, TaskExecution}
use worker_template.Message.{TaskiqMessage, TaskException}
use worker_template.World.{Env, World, effect, execute, commit, with_session}
use worker_template.Retry.{Tenacity, db_retry}
use worker_template.Services.TaskExecutionService.{
  is_selected, get_task_execution, store_status, update_task_status,
}
use worker_template.StateTracking.Extract.{extract_task_execution_id}
use worker_template.StateTracking.Emission.{
  emit_status_event-IsEmission, emit_status_event-schedule,
}
use worker_template.StateTracking.Decision.{
  already_recorded, may_retry, gate_for, fresh_outcome, resolve_retry_decision, max_retries_message,
}
use worker_template.StateTracking.Recording.{record_decision, record_initial_error_status}
use worker_template.StateTracking.Handlers.{
  new_attempt, handle_refused, mark_shadowed, decide_and_record, record_in_session,
  record_error_status, error_body, on_error,
}
use worker_template.StateTracking.Calm.Services.{calm}
use worker_template.StateTracking.Calm.Announced.{on_error-announces}

-- Nothing is enqueued, and no call is to fail.
abbrev pub IsIdle : World → World → Type 0
IsIdle w w' = (w'.sent ≡ w.sent) × (w'.schedule ≡ [])

module _ (env : Env) (tenacity : Tenacity World) (message : TaskiqMessage)
    (raised_error : TaskException) (id : Uuid) (w : World)
    (named : extract_task_execution_id env message ≡ some id) where
  abbrev started : World
  started = record w { attempt = new_attempt; schedule = [] }

  get_task_execution-none :
      (v : World)
      → filter (is_selected id none) v.tables.executions ≡ []
      → get_task_execution id none (calm v) ≡ (ok none, calm v)
  unfolding get_task_execution execute effect lift gets ◌>>=◌
  get_task_execution-none v e = rw e refl

  -- The world once the failure of an unknown task is noted.
  abbrev noted : World
  noted = record w {
    tables = w.committed;
    attempt = record {
      recorded_status = some failed;
      recorded_retry_count = none;
      status_message = some max_retries_message;
      attempt_number = none;
    };
    schedule = [];
  }

  unknown_recorded :
      filter (is_selected id none) w.committed.executions ≡ []
      → with_session (record_in_session env message raised_error id) started
        ≡ (ok (failed, max_retries_message), noted)
  unfolding with_session record_in_session decide_and_record resolve_retry_decision already_recorded
      may_retry gate_for fresh_outcome handle_refused record_initial_error_status record_decision
      update_task_status store_status mark_shadowed commit effect gets modify pure ◌>>=◌
  unknown_recorded e =
      let absent = get_task_execution-none (record started { tables = w.committed }) e in
      rw absent (rw absent refl)

  pub unknown-IsIdle :
      filter (is_selected id none) w.committed.executions ≡ []
      → IsIdle w (on_error env tenacity message raised_error (calm w)).1
  unknown-IsIdle e =
      let news = emit_status_event-IsEmission env message failed _ _ noted in
      rw
        (on_error-announces env message raised_error id (calm w) failed max_retries_message noted
          (unknown_recorded e) tenacity named)
        (
          ap (λ v. v.sent) news.1.nothing_else,
          emit_status_event-schedule env message failed _ _ noted refl,
        )

  module _ (a b : TaskExecution) (rows : List TaskExecution)
      (many : filter (is_selected id none) w.committed.executions ≡ a ∷ b ∷ rows) where
    ambiguous_run :
        record_error_status env message raised_error id started
        ≡ (err (failure "MultipleResultsFound"), record started { tables = w.committed })
    unfolding record_error_status with_session record_in_session get_task_execution execute effect
        lift gets ◌>>=◌
    ambiguous_run = rw many refl

    pub ambiguous-IsIdle : IsIdle w (on_error env tenacity message raised_error (calm w)).1
    unfolding on_error error_body db_retry modify ◌>>=◌
    ambiguous-IsIdle = rw named (
        rw
          (tenacity.reraises _ 2 (record_error_status env message raised_error id) started _ _
            ambiguous_run)
          (refl, refl))

-- ===== src/StateTracking/Flaky/LostReply.antt =====
-- The first run of `on_error` for a retriable task, where the reply to the commit that records the
-- retry is lost, and what `db_retry` does next.
use worker_template.Prelude.{
  ◌+◌, String, ◌≡◌, refl, ◌∙◌, true, false, none, some, [], ◌∷◌, arith, ◌==◌, str_eq, filter-head,
  filter,
}
use worker_template.Text.{cons-append-nonempty}
use worker_template.Exec.{operational, ok, err, pure, lift, gets, modify, ◌>>=◌}
use worker_template.Models.{Uuid, TaskExecution, Tables}
use worker_template.Message.{TaskiqMessage, TaskException}
use worker_template.World.{
  Env, fine, late, World, effect, execute, flush, refresh, reading, commit, with_session,
}
use worker_template.Retry.{Tenacity, db_retry}
use worker_template.Services.TaskExecutionService.{
  is_selected, apply_status, get_task_execution, store_status, update_task_status,
}
use worker_template.Services.TaskAttemptService.{
  latest, get_latest_pending_task_attempt, record_task_attempt,
}
use worker_template.StateTracking.Decision.{may_retry, gate_for, retrying_message}
use worker_template.StateTracking.Recording.{
  tenant_of, record_attempt_of, record_decision, record_initial_error_status,
}
use worker_template.StateTracking.Handlers.{
  new_attempt, reconcile, first_dispatch, handle_allowed, decide_and_record, error_detail_of,
  record_in_session, record_error_status, error_body, on_error,
}
use worker_template.StateTracking.Calm.Services.{filter-write}
use worker_template.StateTracking.Calm.Dispatch.{
  resolve_retry, retried_task, recorded, retry_attempt,
}
use worker_template.StateTracking.Calm.OnError.{IsRetriable}

pub retrying_message_nonempty : (task : TaskExecution) → str_eq (retrying_message task) "" ≡ false
retrying_message_nonempty task = cons-append-nonempty "R" "etrying (" _

-- The seventh call of `on_error` for a retriable task is the commit of the recorded retry: it takes
-- effect and raises `OperationalError`. All others succeed.
abbrev pub lost_reply : World → String → World
lost_reply w x = record w {
  schedule = fine ∷ fine ∷ fine ∷ fine ∷ fine ∷ fine ∷ late (operational x) ∷ [];
}

module _ (env : Env) (message : TaskiqMessage) (raised_error : TaskException) (id : Uuid)
    (task : TaskExecution) (w : World) (h : IsRetriable env message id task w) (x : String) where
  abbrev pub opened : World
  opened = record w { tables = w.committed }

  abbrev pub recorded_tables : Tables
  recorded_tables = (recorded env id message (error_detail_of raised_error) task opened).tables

  -- The world after the first run.
  abbrev pub after_first : World
  after_first = record w {
    committed = recorded_tables;
    tables = recorded_tables;
    attempt = retry_attempt env id message (error_detail_of raised_error) task;
    schedule = [];
    tick = w.tick + 1 + 1;
  }

  pub gate_opens : gate_for env message (some task) ≡ true
  unfolding gate_for may_retry
  gate_opens = ground (arith, h.below, h.gate)

  first_run :
      record_error_status env message raised_error id
        (record (lost_reply w x) { attempt = new_attempt })
      ≡ (err (operational x), after_first)
  unfolding record_error_status with_session record_in_session decide_and_record handle_allowed
      first_dispatch reconcile record_initial_error_status record_decision record_attempt_of
      tenant_of get_task_execution get_latest_pending_task_attempt update_task_status store_status
      record_task_attempt reading execute flush refresh commit effect latest pure lift gets modify
      ◌>>=◌
  first_run = rw h.found (
      rw (resolve_retry env id message (error_detail_of raised_error) task gate_opens)
        (rw h.settled (rw h.found refl)))

  -- The row as the first run has left it.
  abbrev pub left_row : TaskExecution
  left_row = retried_task env id message (error_detail_of raised_error) task opened

  pub left_id : left_row.id ≡ id
  unfolding apply_status
  left_id =
      let passed : (task.id == id) ≡ true =
        filter-head (is_selected id none) w.committed.executions task [] h.found in
      ground arith

  pub second_found : filter (is_selected id none) recorded_tables.executions ≡ left_row ∷ []
  second_found = filter-write id task left_row w.committed.executions left_id h.found

  -- The hook is what its second run makes of it, where that returns.
  pub on_error-second :
      (tenacity : Tenacity World) (ended : World)
      → record_error_status env message raised_error id after_first ≡ (ok tt, ended)
      → on_error env tenacity message raised_error (lost_reply w x) ≡ (ok tt, ended)
  unfolding on_error error_body db_retry modify ◌>>=◌
  on_error-second tenacity ended second =
      let m = record_error_status env message raised_error id in
      rw h.named (
        tenacity.again _ 1 m (record (lost_reply w x) { attempt = new_attempt }) after_first x
          first_run
        ∙ tenacity.returns _ 1 m after_first ended tt second)

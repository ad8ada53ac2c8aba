-- ===== src/StateTracking/Drive/Hooks.antt =====
-- The hooks of a failing task, where every call succeeds, by what they leave for the next.
use worker_template.Prelude.{
  ◌+◌, ◌≤◌, String, ◌≡◌, refl, ap, true, Option, none, some, [], ◌∷◌, arith, ◌==◌, filter, All,
}
use worker_template.Exec.{ok, pure, ◌>>=◌, ◌>>◌}
use worker_template.Models.{Uuid, TaskStatus, TaskExecution}
use worker_template.Message.{TaskiqMessage}
use worker_template.World.{Env, World, Worker, effect, commit, with_session}
use worker_template.Services.TaskExecutionService.{
  StatusFields, is_selected, apply_status, write_execution, update_task_status,
}
use worker_template.Services.TaskAttemptService.{is_pending_attempt}
use worker_template.StateTracking.Extract.{extract_task_execution_id}
use worker_template.StateTracking.Gate.{retry_gate_allows}
use worker_template.StateTracking.Events.{emit_status_event}
use worker_template.StateTracking.Emission.{
  emit_status_event-IsEmission, emit_status_event-schedule,
}
use worker_template.StateTracking.Calm.Services.{
  calm, update_task_status-calm, filter-write, named_id,
}

-- A point between two hooks: the message names the one row of the task, for which the gate is open;
-- no dispatch of the task is pending, and no attempt beyond the retries counted was recorded; no call
-- is to fail.
pub record IsAt (env : Env) (message : TaskiqMessage) (id : Uuid) (task : TaskExecution) (w : World)
    : Type 0 where
  pub named : extract_task_execution_id env message ≡ some id
  pub gate : retry_gate_allows env message.task_name task.tenant_id ≡ true
  pub found : filter (is_selected id none) w.committed.executions ≡ task ∷ []
  pub settled : filter (is_pending_attempt id) w.committed.attempts ≡ []
  pub numbered :
      All
        (λ row. (row.task_execution_id == id) ≡ true → row.attempt_number ≤ task.retry_count)
        w.committed.attempts
  pub quiet : w.schedule ≡ []

-- What a hook leaves that only updates the status of the task.
pub record IsUpdated (changed : TaskExecution) (w w' : World) : Type 0 where
  pub executions : w'.committed.executions ≡ write_execution changed w.committed.executions
  pub attempts : w'.committed.attempts ≡ w.committed.attempts
  pub sent : w'.sent ≡ w.sent
  pub result : w'.result ≡ w.result
  pub quiet : w'.schedule ≡ []

then_pure :
    {A : Type 0} (m : Worker (Unit {0})) (w : World) (a : A)
    → (m w).0 ≡ ok tt
    → (m >> pure a) w ≡ (ok a, (m w).1)
unfolding pure ◌>>=◌
then_pure m w a e = ground arith

pub IsAt-updated :
    {env : Env} {message : TaskiqMessage} {id : Uuid} {task changed : TaskExecution} {w w' : World}
    → IsAt env message id task w
    → changed.id ≡ task.id
    → changed.tenant_id ≡ task.tenant_id
    → changed.retry_count ≡ task.retry_count
    → IsUpdated changed w w'
    → IsAt env message id changed w'
IsAt-updated {env} {message} {id} {task} {changed} {w} {w'} at same tenant count h = record {
  named = at.named;
  gate = rw tenant at.gate;
  found = rw h.executions (
      filter-write id task changed w.committed.executions
        (named_id id task changed w.committed.executions at.found same) at.found);
  settled = rw h.attempts at.settled;
  numbered = rw h.attempts (rw count at.numbered);
  quiet = h.quiet;
}

module _ (env : Env) (message : TaskiqMessage) (id : Uuid) (task : TaskExecution) (w : World)
    (status : TaskStatus) (given : StatusFields) where
  abbrev changed : TaskExecution
  changed = apply_status status given (env.now w.tick) task

  -- The world after the session.
  abbrev written : World
  written = record w {
    committed = record w.committed { executions = write_execution changed w.committed.executions };
    tables = record w.committed { executions = write_execution changed w.committed.executions };
    schedule = [];
    tick = w.tick + 1;
  }

  session-calm :
      filter (is_selected id none) w.committed.executions ≡ task ∷ []
      → with_session (update_task_status env id status given >> commit) (calm w) ≡ (ok tt, written)
  unfolding with_session commit effect ◌>>=◌
  session-calm found =
      rw
        (update_task_status-calm env id status given (record w { tables = w.committed }) task found)
        refl

  announced :
      (given_message given_error : Option String)
      → let outcome = emit_status_event env message status given_message given_error written in
        (outcome.0 ≡ ok tt) × IsUpdated changed w outcome.1
  announced given_message given_error =
      let news =
        emit_status_event-IsEmission env message status given_message given_error written in
      (
        news.0,
        record {
          executions = ap (λ v. v.committed.executions) news.1.nothing_else;
          attempts = ap (λ v. v.committed.attempts) news.1.nothing_else;
          sent = ap (λ v. v.sent) news.1.nothing_else;
          result = ap (λ v. v.result) news.1.nothing_else;
          quiet =
              emit_status_event-schedule env message status given_message given_error written refl;
        },
      )

  -- The session of a hook, and the event after it.
  pub status_hook :
      (given_message given_error : Option String)
      → filter (is_selected id none) w.committed.executions ≡ task ∷ []
      → let outcome =
          (with_session (update_task_status env id status given >> commit)
              >> emit_status_event env message status given_message given_error)
            (calm w) in
        (outcome.0 ≡ ok tt) × IsUpdated changed w outcome.1
  unfolding ◌>>=◌
  status_hook given_message given_error found =
      rw (session-calm found) (announced given_message given_error)

  pub status_hook_then :
      {A : Type 0} (given_message given_error : Option String) (a : A)
      → filter (is_selected id none) w.committed.executions ≡ task ∷ []
      → let outcome =
          (with_session (update_task_status env id status given >> commit)
              >> (emit_status_event env message status given_message given_error >> pure a))
            (calm w) in
        (outcome.0 ≡ ok a) × IsUpdated changed w outcome.1
  unfolding ◌>>=◌
  status_hook_then given_message given_error a found =
      let news = announced given_message given_error in
      rw (session-calm found) (
        rw
          (then_pure (emit_status_event env message status given_message given_error) written a
            news.0)
          (refl, news.1))

-- ===== src/StateTracking/Calm/Announced.antt =====
-- `on_error` around the work of its session: the run under `db_retry`, and the event after it.
use worker_template.Prelude.{String, ◌≡◌, ◌∙◌, sym, some, arith}
use worker_template.Exec.{ok, modify, ◌>>=◌}
use worker_template.Models.{Uuid, TaskStatus}
use worker_template.Message.{TaskiqMessage, TaskException}
use worker_template.World.{Env, World, Worker, with_session}
use worker_template.Retry.{Tenacity, db_retry}
use worker_template.StateTracking.Extract.{extract_task_execution_id}
use worker_template.StateTracking.Events.{emit_status_event}
use worker_template.StateTracking.Emission.{emit_status_event-IsEmission}
use worker_template.StateTracking.Handlers.{
  new_attempt, error_detail_of, record_in_session, record_error_status, error_body, on_error,
}

-- Where the first run returns, `db_retry` returns what it returned.
pub db_retry_once :
    {A : Type 0} (tenacity : Tenacity World) (m : Worker A) (w : World) (a : A)
    → (m w).0 ≡ ok a
    → db_retry tenacity m w ≡ m w
unfolding db_retry
db_retry_once {A} tenacity m w a e =
    let whole : m w ≡ (ok a, (m w).1) = ground arith in
    tenacity.returns A 2 m w (m w).1 a whole ∙ sym whole

module _ (env : Env) (message : TaskiqMessage) (raised_error : TaskException) (id : Uuid)
    (w : World) (status : TaskStatus) (status_message : String) (after : World)
    (recorded : with_session
        (record_in_session env message raised_error id)
        (record w { attempt = new_attempt })
      ≡ (ok (status, status_message), after)) where
  abbrev announce : Worker (Unit {0})
  announce =
      emit_status_event env message status (some status_message)
        (some (error_detail_of raised_error))

  recorded_and_announced :
      record_error_status env message raised_error id (record w { attempt = new_attempt })
      ≡ announce after
  unfolding record_error_status ◌>>=◌
  recorded_and_announced = rw recorded

  pub on_error-announces :
      (tenacity : Tenacity World)
      → extract_task_execution_id env message ≡ some id
      → on_error env tenacity message raised_error w ≡ announce after
  unfolding on_error error_body modify ◌>>=◌
  on_error-announces tenacity named = rw named (
      db_retry_once tenacity (record_error_status env message raised_error id)
        (record w { attempt = new_attempt }) tt
        (rw recorded_and_announced (emit_status_event-IsEmission env message status _ _ after).0)
      ∙ recorded_and_announced)

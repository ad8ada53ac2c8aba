-- ===== src/StateTracking/Calm/OnError.antt =====
-- `on_error` for a failed task that may be retried, where every call succeeds, and `post_execute` where
-- the hook owns the outcome.
use worker_template.Prelude.{
  ◌+◌, ◌<◌, ◌≡◌, refl, ap, ◌∙◌, true, Option, none, some, List, [], ◌∷◌, ◌++◌, ◌⊎◌, inl, inr, arith,
  filter, if◌then◌else◌,
}
use worker_template.Exec.{Result, ok, pure, gets, ◌>>=◌}
use worker_template.Models.{Uuid, retrying, TaskExecution}
use worker_template.Message.{TaskiqMessage, TaskException, no_result}
use worker_template.Realtime.{Emission}
use worker_template.World.{Env, World, Worker, with_session}
use worker_template.Retry.{Tenacity}
use worker_template.Services.TaskExecutionService.{is_selected}
use worker_template.Services.TaskAttemptService.{is_open_attempt, is_pending_attempt}
use worker_template.StateTracking.Extract.{extract_task_execution_id}
use worker_template.StateTracking.Gate.{retry_gate_allows}
use worker_template.StateTracking.Events.{emit_status_event}
use worker_template.StateTracking.Announcement.{expected_emission}
use worker_template.StateTracking.Emission.{
  IsEmission, IsEmission-events, emit_status_event-IsEmission, emit_status_event-schedule,
}
use worker_template.StateTracking.Decision.{may_retry, gate_for, retrying_message}
use worker_template.StateTracking.Handlers.{
  new_attempt, error_detail_of, record_in_session, post_body, post_execute, on_error,
}
use worker_template.StateTracking.Calm.Services.{calm, get_task_execution-calm}
use worker_template.StateTracking.Calm.Announced.{db_retry_once, on_error-announces}
use worker_template.StateTracking.Calm.Dispatch.{dispatched_tables, retried, retry_recorded}

-- A failure that is to be retried: the message names the one row of the task, which is below its
-- maximum; the gate is open for it; and no dispatch of the task is pending or open.
pub record IsRetriable (env : Env) (message : TaskiqMessage) (id : Uuid) (task : TaskExecution)
    (w : World) : Type 0 where
  pub named : extract_task_execution_id env message ≡ some id
  pub below : task.retry_count < task.max_retries
  pub gate : retry_gate_allows env message.task_name task.tenant_id ≡ true
  pub found : filter (is_selected id none) w.committed.executions ≡ task ∷ []
  pub settled : filter (is_pending_attempt id) w.committed.attempts ≡ []
  pub unopened : filter (is_open_attempt id (task.retry_count + 1)) w.committed.attempts ≡ []

-- What `on_error` has done where it retries: it returned; the task's row is RETRYING with one more
-- retry counted, the audit table has one more row, marked as dispatched; the message is on the queue
-- once; the result says that there is no result; the event was sent if there is an emitter; and no
-- call is to fail.
pub record IsRetried (env : Env) (message : TaskiqMessage) (raised_error : TaskException)
    (id : Uuid) (task : TaskExecution) (w : World) (outcome : Result (Unit {0}) × World)
    : Type 0 where
  pub returned : outcome.0 ≡ ok tt
  pub tables :
      outcome.1.committed
      ≡ dispatched_tables env id message
          (error_detail_of raised_error)
          task
          (record w { tables = w.committed })
  pub sent : outcome.1.sent ≡ w.sent ++ message ∷ []
  pub result : outcome.1.result ≡ record w.result { error = some no_result }
  pub announced :
      outcome.1.events
      ≡ w.events
        ++ (if w.emitter
            then expected_emission env message retrying
                (some (retrying_message task))
                (some (error_detail_of raised_error))
            else [])
  pub quiet : outcome.1.schedule ≡ []

module _ (env : Env) (message : TaskiqMessage) (raised_error : TaskException) (id : Uuid)
    (task : TaskExecution) (w : World) (h : IsRetriable env message id task w) where
  gate_opens : gate_for env message (some task) ≡ true
  unfolding gate_for may_retry
  gate_opens = ground (arith, h.below, h.gate)

  -- The session that the hook opens, and the world when the session's work is done.
  abbrev opened : World
  opened = record w { tables = w.committed }

  abbrev pub after_session : World
  after_session = retried env id message (error_detail_of raised_error) task opened

  in_session :
      with_session
        (record_in_session env message raised_error id)
        (record w { attempt = new_attempt; schedule = [] })
      ≡ (ok (retrying, retrying_message task), after_session)
  unfolding with_session record_in_session ◌>>=◌
  in_session =
      rw (get_task_execution-calm id (record opened { attempt = new_attempt }) task h.found) (
        retry_recorded env id message (error_detail_of raised_error) task opened gate_opens h.found
          h.settled h.unopened)

  abbrev pub announce : Worker (Unit {0})
  announce =
      emit_status_event env message retrying (some (retrying_message task))
        (some (error_detail_of raised_error))

  abbrev news : List Emission
  news =
      expected_emission env message retrying (some (retrying_message task))
        (some (error_detail_of raised_error))

  announced :
      ((announce after_session).0 ≡ ok tt)
      × IsEmission news after_session (announce after_session).1
  announced = emit_status_event-IsEmission env message retrying _ _ after_session

  module _ (tenacity : Tenacity World) where
    pub on_error-calm : on_error env tenacity message raised_error (calm w) ≡ announce after_session
    on_error-calm =
        on_error-announces env message raised_error id (calm w) retrying (retrying_message task)
          after_session in_session tenacity h.named

    on_error_retries :
        IsRetried env message raised_error id task w
          (on_error env tenacity message raised_error (calm w))
    on_error_retries =
        let ends = announced in
        rw on_error-calm (record {
          returned = ends.0;
          tables = ap (λ v. v.committed) ends.1.nothing_else;
          sent = ap (λ v. v.sent) ends.1.nothing_else;
          result = ap (λ v. v.result) ends.1.nothing_else;
          announced = IsEmission-events ends.1 refl;
          quiet = emit_status_event-schedule env message retrying _ _ after_session refl;
        })

-- A failure that is to be retried, where every call succeeds: `on_error` returns, the task's row is
-- RETRYING with one more retry counted, the audit table has one more row, which is marked as
-- dispatched, the message is enqueued once more, the result is `NoResultError`, and the event of the
-- retry is sent if there is an emitter.
pub on_error-IsRetried :
    (env : Env) (tenacity : Tenacity World) (message : TaskiqMessage) (raised_error : TaskException)
    (id : Uuid) (task : TaskExecution) (w : World)
    → IsRetriable env message id task w
    → IsRetried env message raised_error id task w
        (on_error env tenacity message raised_error (calm w))
on_error-IsRetried env tenacity message raised_error id task w h =
    on_error_retries env message raised_error id task w h tenacity

-- The hook owns the outcome: it has dispatched a retry, or it has recorded a shadowed one.
abbrev pub IsOwned : World → Type 0
IsOwned w = (w.result.error ≡ some no_result) ⊎ (w.result.shadow_retry ≡ true)

post_body_owned :
    (env : Env) (message : TaskiqMessage) (id : Option Uuid) (w : World)
    → IsOwned w
    → post_body env message id w ≡ (ok tt, w)
unfolding post_body gets pure ◌>>=◌
post_body_owned env message none w h = refl
post_body_owned env message (some id) w (inl e) = rw e
post_body_owned env message (some id) w (inr e) = ground arith

-- Where `on_error` owns the outcome, `post_execute` returns and changes nothing at all, so that it
-- never overwrites the status of a task that is being retried.
pub post_execute-IsOwned :
    (env : Env) (tenacity : Tenacity World) (message : TaskiqMessage) (w : World)
    → IsOwned w
    → post_execute env tenacity message w ≡ (ok tt, w)
unfolding post_execute
post_execute-IsOwned env tenacity message w h =
    db_retry_once tenacity _ w tt (ap (λ r. r.0) owned) ∙ owned
  where
    owned : post_body env message (extract_task_execution_id env message) w ≡ (ok tt, w)
    owned = post_body_owned env message (extract_task_execution_id env message) w h

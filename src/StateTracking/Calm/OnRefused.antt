-- ===== src/StateTracking/Calm/OnRefused.antt =====
-- `on_error` for a task that is not retried, where every call succeeds.
use worker_template.Prelude.{
  ◌≡◌, refl, ap, Bool, true, false, ◌&&◌, none, some, [], ◌∷◌, ◌++◌, filter, if◌then◌else◌,
}
use worker_template.Exec.{Result, ok, ◌>>=◌}
use worker_template.Models.{Uuid, TaskExecution}
use worker_template.Message.{TaskiqMessage, TaskException}
use worker_template.World.{Env, World, with_session}
use worker_template.Retry.{Tenacity}
use worker_template.Services.TaskExecutionService.{is_selected}
use worker_template.StateTracking.Extract.{extract_task_execution_id}
use worker_template.StateTracking.Announcement.{expected_emission}
use worker_template.StateTracking.Emission.{
  IsEmission-events, emit_status_event-IsEmission, emit_status_event-schedule,
}
use worker_template.StateTracking.Decision.{may_retry, gate_for}
use worker_template.StateTracking.Handlers.{
  new_attempt, error_detail_of, record_in_session, on_error,
}
use worker_template.StateTracking.Calm.Services.{calm, get_task_execution-calm}
use worker_template.StateTracking.Calm.Announced.{on_error-announces}
use worker_template.StateTracking.Calm.Refused.{
  refusal, refused_tables, refused_world, refusal_recorded,
}

-- A failure that is not retried: the message names the one row of the task, and no retry is left or
-- the gate is shut.
pub record IsRefusable (env : Env) (message : TaskiqMessage) (id : Uuid) (task : TaskExecution)
    (w : World) : Type 0 where
  pub named : extract_task_execution_id env message ≡ some id
  pub found : filter (is_selected id none) w.committed.executions ≡ task ∷ []
  pub shut : gate_for env message (some task) ≡ false

-- What `on_error` has done then, where `below` says that a retry was left and `shadow` that it is
-- shadowed.
pub record IsRefused (env : Env) (message : TaskiqMessage) (raised_error : TaskException)
    (id : Uuid) (task : TaskExecution) (below shadow : Bool) (w : World)
    (outcome : Result (Unit {0}) × World) : Type 0 where
  pub returned : outcome.0 ≡ ok tt
  pub tables :
      outcome.1.committed
      ≡ refused_tables env id message
          (error_detail_of raised_error)
          task
          below
          shadow
          (record w { tables = w.committed })
  pub sent : outcome.1.sent ≡ w.sent
  pub result :
      outcome.1.result ≡ (if shadow then record w.result { shadow_retry = true } else w.result)
  pub announced :
      outcome.1.events
      ≡ w.events
        ++ (if w.emitter
            then expected_emission env message
                (refusal below shadow).0
                (some (refusal below shadow).1)
                (some (error_detail_of raised_error))
            else [])
  pub quiet : outcome.1.schedule ≡ []

module _ (env : Env) (message : TaskiqMessage) (raised_error : TaskException) (id : Uuid)
    (task : TaskExecution) (w : World) (h : IsRefusable env message id task w) (below : Bool)
    (left : may_retry (some task) ≡ below) where
  abbrev shadow : Bool
  shadow = below && env.settings.task_retry_shadow_mode

  abbrev after_session : World
  after_session =
      refused_world env id message (error_detail_of raised_error) task below shadow
        (record w { tables = w.committed })

  in_session :
      with_session
        (record_in_session env message raised_error id)
        (record w { attempt = new_attempt; schedule = [] })
      ≡ (ok (refusal below shadow), after_session)
  unfolding with_session record_in_session ◌>>=◌
  in_session =
      rw
        (get_task_execution-calm id (record w { tables = w.committed; attempt = new_attempt }) task
          h.found)
        (refusal_recorded env id message (error_detail_of raised_error) task below
          (record w { tables = w.committed }) left h.shut h.found)

  on_error_refuses :
      (tenacity : Tenacity World)
      → IsRefused env message raised_error id task below shadow w
          (on_error env tenacity message raised_error (calm w))
  on_error_refuses tenacity =
      let outcome = refusal below shadow in
      let detail = some (error_detail_of raised_error) in
      let ends =
        emit_status_event-IsEmission env message outcome.0 (some outcome.1) detail after_session in
      rw
        (on_error-announces env message raised_error id (calm w) outcome.0 outcome.1 after_session
          in_session tenacity h.named)
        (record {
          returned = ends.0;
          tables = ap (λ v. v.committed) ends.1.nothing_else;
          sent = ap (λ v. v.sent) ends.1.nothing_else;
          result = ap (λ v. v.result) ends.1.nothing_else;
          announced = IsEmission-events ends.1 refl;
          quiet =
              emit_status_event-schedule env message outcome.0 (some outcome.1) detail after_session
                refl;
        })

-- A failed task that is not retried, where every call succeeds: `on_error` returns and enqueues
-- nothing. Without a retry left the row is FAILED ("max retries exceeded"), and nothing is audited.
-- With a retry left whose gate is shut, one audit row is added: `shadowed` in shadow mode, where the
-- row is RETRYING with one more retry counted and the result carries the marker, and else `blocked`,
-- where the row is FAILED. The event of that status is sent if there is an emitter.
pub on_error-IsRefused :
    (env : Env) (tenacity : Tenacity World) (message : TaskiqMessage) (raised_error : TaskException)
    (id : Uuid) (task : TaskExecution) (w : World)
    → IsRefusable env message id task w
    → IsRefused env message raised_error id task
        (may_retry (some task))
        (may_retry (some task) && env.settings.task_retry_shadow_mode)
        w
        (on_error env tenacity message raised_error (calm w))
on_error-IsRefused env tenacity message raised_error id task w h =
    on_error_refuses env message raised_error id task w h (may_retry (some task)) refl tenacity

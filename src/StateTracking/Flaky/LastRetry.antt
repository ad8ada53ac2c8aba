-- ===== src/StateTracking/Flaky/LastRetry.antt =====
-- The last retry of a task, where the reply to the commit that records it is lost.
use worker_template.Prelude.{
  ◌+◌, String, ◌≡◌, refl, sym, ap, ◌∙◌, true, false, none, some, List, [], ◌∷◌, ◌++◌, arith, ltb,
  ==-refl, eq_refl, filter, pair_eq, if◌then◌else◌,
}
use worker_template.Exec.{ok, pure, gets, ◌>>=◌}
use worker_template.Models.{Uuid, retrying, TaskExecution}
use worker_template.Message.{TaskiqMessage, TaskException}
use worker_template.Realtime.{Emission}
use worker_template.World.{Env, World, Worker, effect, commit, with_session}
use worker_template.Retry.{Tenacity}
use worker_template.Services.TaskExecutionService.{is_selected, apply_status}
use worker_template.StateTracking.Decision.{
  RetryDecision, already_recorded, may_retry, gate_for, resolve_retry_decision, retrying_message,
}
use worker_template.StateTracking.Handlers.{
  handle_refused, mark_shadowed, decide_and_record, error_detail_of, record_in_session,
  record_error_status, on_error,
}
use worker_template.StateTracking.Events.{emit_status_event}
use worker_template.StateTracking.Announcement.{expected_emission}
use worker_template.StateTracking.Emission.{
  IsEmission, IsEmission-events, emit_status_event-IsEmission,
}
use worker_template.StateTracking.Calm.Services.{get_task_execution-calm}
use worker_template.StateTracking.Calm.Dispatch.{context, retried_task, pending_row, retry_attempt}
use worker_template.StateTracking.Calm.OnError.{IsRetriable}
use worker_template.StateTracking.Flaky.LostReply.{
  retrying_message_nonempty, lost_reply, recorded_tables, after_first, left_row, second_found,
  on_error-second,
}

module _ (env : Env) (message : TaskiqMessage) (raised_error : TaskException) (id : Uuid)
    (task : TaskExecution) (w : World) (h : IsRetriable env message id task w) (x : String) where
  abbrev begun : World
  begun = after_first env message raised_error id task w h x

  abbrev begun_row : TaskExecution
  begun_row = left_row env message raised_error id task w h x

  -- The decision of the second run: the retry is recorded, and the row has no retry left.
  abbrev taken_over : RetryDecision
  taken_over = record {
    status = retrying;
    status_msg = retrying_message task;
    retry_already_recorded = true;
    should_retry = false;
    retry_allowed = false;
    retry_shadowed = false;
    status_before = retrying;
    attempt_number = task.retry_count + 1 + 1;
  }

  module _ (last : task.retry_count + 1 ≡ task.max_retries) where
    second_decision :
        resolve_retry_decision env
          (context env id message (error_detail_of raised_error) begun_row)
          (retry_attempt env id message (error_detail_of raised_error) task)
        ≡ taken_over
    unfolding resolve_retry_decision already_recorded may_retry gate_for apply_status
    second_decision =
        let spent : ltb (task.retry_count + 1) task.max_retries ≡ false = ground arith in
        simp (==-refl, eq_refl, spent, retrying_message_nonempty)

    second_run :
        record_error_status env message raised_error id begun
        ≡ emit_status_event env message retrying
            (some (retrying_message task))
            (some (error_detail_of raised_error))
            begun
    unfolding record_error_status with_session record_in_session decide_and_record handle_refused
        mark_shadowed commit effect pure gets ◌>>=◌
    second_run =
        rw
          (get_task_execution-calm id begun begun_row
            (second_found env message raised_error id task w h x))
          (rw second_decision)

    abbrev announce : Worker (Unit {0})
    announce =
        emit_status_event env message retrying (some (retrying_message task))
          (some (error_detail_of raised_error))

    abbrev news : List Emission
    news =
        expected_emission env message retrying (some (retrying_message task))
          (some (error_detail_of raised_error))

    announced : ((announce begun).0 ≡ ok tt) × IsEmission news begun (announce begun).1
    announced = emit_status_event-IsEmission env message retrying _ _ begun

    last_retry_lost :
        ((announce begun).0 ≡ ok tt)
        × ((announce begun).1.sent ≡ w.sent)
        × ((announce begun).1.result ≡ w.result)
        × (filter (is_selected id none) (announce begun).1.committed.executions ≡ begun_row ∷ [])
        × ((announce begun).1.committed.attempts
            ≡ (recorded_tables env message raised_error id task w h x).attempts)
        × ((announce begun).1.events ≡ w.events ++ (if w.emitter then news else []))
    last_retry_lost =
        let only_events = announced.1.nothing_else in
        (
          announced.0,
          ap (λ v. v.sent) only_events,
          ap (λ v. v.result) only_events,
          ap (λ v. filter (is_selected id none) v.committed.executions) only_events
              ∙ (second_found env message raised_error id task w h x),
          ap (λ v. v.committed.attempts) only_events,
          IsEmission-events announced.1 refl,
        )

    on_error_lost :
        (tenacity : Tenacity World)
        → on_error env tenacity message raised_error (lost_reply w x) ≡ announce (begun)
    on_error_lost tenacity =
        on_error-second env message raised_error id task w h x tenacity (announce begun).1
          (second_run ∙ pair_eq (announce begun) announced.0)
        ∙ sym (pair_eq (announce begun) announced.0)

-- The last retry of a task is lost where the commit that records it takes effect and its reply does
-- not arrive, while all other calls succeed: `on_error` returns, the committed row of the task is
-- RETRYING, and the event of a retry is sent if there is an emitter; but no message is enqueued, the
-- audit row is left pending, and the result does not say that a retry was dispatched.
pub on_error_loses_last_retry :
    (env : Env) (tenacity : Tenacity World) (message : TaskiqMessage) (raised_error : TaskException)
    (id : Uuid) (task : TaskExecution) (w : World) (x : String)
    → IsRetriable env message id task w
    → task.retry_count + 1 ≡ task.max_retries
    → let (r, w') = on_error env tenacity message raised_error (lost_reply w x) in
      (r ≡ ok tt)
      × (w'.sent ≡ w.sent)
      × (w'.result ≡ w.result)
      × (filter (is_selected id none) w'.committed.executions
          ≡ retried_task env id message (error_detail_of raised_error) task w ∷ [])
      × (w'.committed.attempts
          ≡ w.committed.attempts
            ++ pending_row env id message (error_detail_of raised_error) task w ∷ [])
      × (w'.events
          ≡ w.events
            ++ (if w.emitter
                then expected_emission env message retrying
                    (some (retrying_message task))
                    (some (error_detail_of raised_error))
                else []))
on_error_loses_last_retry env tenacity message raised_error id task w x h last =
    rw (on_error_lost env message raised_error id task w h x last tenacity)
      (last_retry_lost env message raised_error id task w h x last)

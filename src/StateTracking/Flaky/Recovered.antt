-- ===== src/StateTracking/Flaky/Recovered.antt =====
-- A retry that is not the last, where the reply to the commit that records it is lost.
use worker_template.Prelude.{
  ◌++◌, ◌+◌, ◌<◌, String, ◌≡◌, refl, sym, ◌∙◌, true, false, [], ◌∷◌, arith, ltb, ==-refl, eq_refl,
  pair_eq,
}
use worker_template.Exec.{ok, pure, gets, ◌>>=◌}
use worker_template.Models.{Uuid, retrying, TaskExecution}
use worker_template.Message.{TaskiqMessage, TaskException}
use worker_template.World.{Env, World, Worker, effect, commit, with_session}
use worker_template.Retry.{Tenacity}
use worker_template.Services.TaskExecutionService.{apply_status}
use worker_template.Services.TaskAttemptService.{latest, set_dispatched}
use worker_template.StateTracking.Emission.{emit_status_event-IsEmission}
use worker_template.StateTracking.Decision.{
  ErrorContext, RetryDecision, already_recorded, may_retry, gate_for, resolve_retry_decision,
  retrying_message,
}
use worker_template.StateTracking.Handlers.{
  resume_from, resume_dispatch, handle_allowed, mark_shadowed, decide_and_record, error_detail_of,
  record_in_session, record_error_status, on_error,
}
use worker_template.StateTracking.Calm.Services.{
  mark_task_attempt_dispatched-calm, calm, get_task_execution-calm,
  get_task_attempt_dispatch_state-calm,
}
use worker_template.StateTracking.Calm.Dispatch.{
  context, number_or-add_one, pending_row, retry_attempt, open_row, dispatched_world,
  dispatch_retry-calm,
}
use worker_template.StateTracking.Calm.OnError.{IsRetriable, after_session, announce, on_error-calm}
use worker_template.StateTracking.Flaky.LostReply.{
  retrying_message_nonempty, lost_reply, opened, after_first, left_row, second_found,
  on_error-second,
}

module _ (env : Env) (message : TaskiqMessage) (raised_error : TaskException) (id : Uuid)
    (task : TaskExecution) (w : World) (h : IsRetriable env message id task w) (x : String)
    (more : task.retry_count + 1 < task.max_retries) where
  abbrev begun : World
  begun = after_first env message raised_error id task w h x

  abbrev begun_row : TaskExecution
  begun_row = left_row env message raised_error id task w h x

  abbrev ctx : ErrorContext
  ctx = context env id message (error_detail_of raised_error) begun_row

  -- The decision of the second run: the retry is recorded, and the row has a retry left.
  abbrev taken_over : RetryDecision
  taken_over = record {
    status = retrying;
    status_msg = retrying_message task;
    retry_already_recorded = true;
    should_retry = true;
    retry_allowed = true;
    retry_shadowed = false;
    status_before = retrying;
    attempt_number = task.retry_count + 1 + 1;
  }

  second_decision :
      resolve_retry_decision env ctx
        (retry_attempt env id message (error_detail_of raised_error) task)
      ≡ taken_over
  unfolding resolve_retry_decision already_recorded may_retry gate_for apply_status
  second_decision =
      let left : ltb (task.retry_count + 1) task.max_retries ≡ true = ground arith in
      simp (==-refl, eq_refl, left, h.gate, retrying_message_nonempty)

  -- The audit row of the first run is found, and the retry is dispatched for it.
  resumes : handle_allowed env ctx taken_over begun ≡ (
    ok (retrying, retrying_message task),
    dispatched_world message
        (set_dispatched
          (pending_row env id message
            (error_detail_of raised_error)
            task
            (opened env message raised_error id task w h x)).id
          begun.tables.attempts)
        begun,
  )
  unfolding handle_allowed resume_dispatch resume_from commit effect gets latest ◌>>=◌
  resumes =
      let found =
        open_row env id message (error_detail_of raised_error) task
          (opened env message raised_error id task w h x) h.unopened in
      rw number_or-add_one (
        rw (get_task_attempt_dispatch_state-calm id (task.retry_count + 1) begun) (
          rw found (
            dispatch_retry-calm env ctx taken_over task.retry_count begun _ refl (
              mark_task_attempt_dispatched-calm id (task.retry_count + 1)
                (record begun { sent = w.sent ++ message ∷ [] }) _ found refl))))

  second_session :
      with_session (record_in_session env message raised_error id) begun
      ≡ (ok (retrying, retrying_message task), after_session env message raised_error id task w h)
  unfolding with_session record_in_session decide_and_record mark_shadowed gets pure ◌>>=◌
  second_session =
      rw
        (get_task_execution-calm id begun begun_row
          (second_found env message raised_error id task w h x))
        (rw second_decision (rw resumes refl))

  abbrev tell : Worker (Unit {0})
  tell = announce env message raised_error id task w h

  second_run :
      record_error_status env message raised_error id begun
      ≡ tell (after_session env message raised_error id task w h)
  unfolding record_error_status ◌>>=◌
  second_run = rw second_session refl

  recovers :
      (tenacity : Tenacity World)
      → on_error env tenacity message raised_error (lost_reply w x)
        ≡ on_error env tenacity message raised_error (calm w)
  recovers tenacity =
      let told = tell (after_session env message raised_error id task w h) in
      let whole : told ≡ (ok tt, told.1) =
        pair_eq told (emit_status_event-IsEmission env message retrying _ _ _).0 in
      on_error-second env message raised_error id task w h x tenacity told.1 (second_run ∙ whole)
      ∙ (sym whole ∙ sym (on_error-calm env message raised_error id task w h tenacity))

-- A retry that is not the task's last does not suffer from a lost reply: where the commit that records
-- it takes effect and raises `OperationalError`, while all other calls succeed, `on_error` ends as it
-- does where every call succeeds, with the same result and the same world.
pub on_error_recovers :
    (env : Env) (tenacity : Tenacity World) (message : TaskiqMessage) (raised_error : TaskException)
    (id : Uuid) (task : TaskExecution) (w : World) (x : String)
    → IsRetriable env message id task w
    → task.retry_count + 1 < task.max_retries
    → on_error env tenacity message raised_error (lost_reply w x)
      ≡ on_error env tenacity message raised_error (calm w)
on_error_recovers env tenacity message raised_error id task w x h more =
    recovers env message raised_error id task w h x more tenacity

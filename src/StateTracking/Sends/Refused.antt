-- ===== src/StateTracking/Sends/Refused.antt =====
-- The queue where the retry gate refuses a task.
use worker_template.Prelude.{
  String, ◌≡◌, refl, ap, ◌∙◌, Bool, false, Option, none, some, List, arith, if◌then◌else◌,
}
use worker_template.Exec.{pure, gets, modify, ◌>>=◌}
use worker_template.Exec.Holds.{Post-final, Keeps, Post}
use worker_template.Models.{Uuid, TaskStatus, TaskExecution}
use worker_template.Message.{TaskiqMessage, TaskException}
use worker_template.World.{Env, World, Worker, with_session}
use worker_template.Retry.{Tenacity, db_retry}
use worker_template.Retry.Limit.{db_retry-Keeps}
use worker_template.StateTracking.Extract.{extract_task_execution_id}
use worker_template.StateTracking.Gate.{retry_gate_allows}
use worker_template.StateTracking.Events.{emit_status_event}
use worker_template.StateTracking.Emission.{emit_status_event-IsEmission}
use worker_template.StateTracking.Decision.{ErrorContext, gate_for, resolve_retry_decision}
use worker_template.StateTracking.Handlers.{
  decide_and_record, record_in_session, record_error_status, new_attempt, error_body, on_error,
}
use worker_template.StateTracking.Sends.Count.{Post-of_final}
use worker_template.StateTracking.Sends.Quiet.{Quiet, Quiet-bind, Quiet-pure}
use worker_template.StateTracking.Sends.Recording.{
  get_task_execution-Quiet, handle_refused-Quiet, mark_shadowed-Quiet,
}

pub emit_status_event-Quiet :
    (env : Env) (message : TaskiqMessage) (status : TaskStatus)
    (status_message error_detail : Option String)
    → Quiet (emit_status_event env message status status_message error_detail)
emit_status_event-Quiet env message status status_message error_detail = record {
  at = λ w.
      ap (λ v. v.sent)
        (emit_status_event-IsEmission env message status status_message error_detail
          w).1.nothing_else;
}

pub with_session-Quiet : {A : Type 0} (m : Worker A) → Quiet m → Quiet (with_session m)
unfolding with_session
with_session-Quiet m h = record { at = λ w. h.at (record w { tables = w.committed }) }

-- One that depends on the value it was given.
Quiet-gets_bind :
    {A B : Type 0} (f : World → A) (k : A → Worker B)
    → ((w : World) → Quiet (k (f w)))
    → Quiet (gets f >>= k)
unfolding gets ◌>>=◌
Quiet-gets_bind f k h = record { at = λ w. (h w).at w }

Quiet-else :
    {A : Type 0} (b : Bool) (m n : Worker A) → b ≡ false → Quiet n → Quiet (if b then m else n)
Quiet-else b m n e h = rw e h

module _ (env : Env) (message : TaskiqMessage)
    (refused : (tenant_id : Uuid) → retry_gate_allows env message.task_name tenant_id ≡ false) where
  gate_refuses : (task : Option TaskExecution) → gate_for env message task ≡ false
  unfolding gate_for
  gate_refuses none = refl
  gate_refuses (some task) = ground (arith, refused task.tenant_id)

  not_allowed :
      (ctx : ErrorContext) (w : World)
      → ctx.message ≡ message
      → (resolve_retry_decision env ctx w.attempt).retry_allowed ≡ false
  unfolding resolve_retry_decision
  not_allowed ctx w e = rw e (gate_refuses ctx.task)

  decide_and_record-Quiet :
      (ctx : ErrorContext) → ctx.message ≡ message → Quiet (decide_and_record env ctx)
  unfolding decide_and_record
  decide_and_record-Quiet ctx e = Quiet-gets_bind _ _ λ w.
      let d = resolve_retry_decision env ctx w.attempt in
      Quiet-bind _ _
        (Quiet-else d.retry_allowed _ _ (not_allowed ctx w e) (handle_refused-Quiet env ctx d))
        (λ outcome. Quiet-bind _ _ (mark_shadowed-Quiet env d) (λ _. Quiet-pure _))

  record_error_status-Quiet :
      (raised_error : TaskException) (id : Uuid)
      → Quiet (record_error_status env message raised_error id)
  unfolding record_error_status record_in_session
  record_error_status-Quiet raised_error id =
      Quiet-bind _ _
        (with_session-Quiet _ (
          Quiet-bind _ _ (get_task_execution-Quiet id none)
            (λ task. decide_and_record-Quiet _ refl)))
        (λ outcome. emit_status_event-Quiet env message outcome.0 _ _)

  abbrev Unsent : List TaskiqMessage → World → Type 0
  Unsent base w = w.sent ≡ base

  Quiet-Unsent :
      {A : Type 0} (base : List TaskiqMessage) (m : Worker A) → Quiet m → Keeps (Unsent base) m
  Quiet-Unsent base m q = record { at = λ w h. Post-of_final (Unsent base) (m w) (q.at w ∙ h) }

  error_body-Unsent :
      (tenacity : Tenacity World) (raised_error : TaskException) (id : Option Uuid) (w : World)
      → Post
          (λ _. Unsent w.sent)
          (Unsent w.sent)
          (error_body env (db_retry tenacity) message raised_error id w)
  unfolding error_body pure modify ◌>>=◌
  error_body-Unsent tenacity raised_error none w = refl
  error_body-Unsent tenacity raised_error (some id) w =
      (db_retry-Keeps tenacity (Unsent w.sent) _
          (Quiet-Unsent w.sent _ (record_error_status-Quiet raised_error id))).at
        (record w { attempt = new_attempt }) refl

-- Where the retry gate refuses the task of the message for every tenant, one call of `on_error`
-- enqueues nothing, however the calls of the database, of the broker and of Socket.IO end.
pub on_error_refused :
    (env : Env) (tenacity : Tenacity World) (message : TaskiqMessage) (raised_error : TaskException)
    (w : World)
    → ((tenant_id : Uuid) → retry_gate_allows env message.task_name tenant_id ≡ false)
    → (on_error env tenacity message raised_error w).1.sent ≡ w.sent
unfolding on_error
on_error_refused env tenacity message raised_error w refused =
    Post-final (λ v. v.sent ≡ w.sent) _
      (error_body-Unsent env message refused tenacity raised_error
        (extract_task_execution_id env message) w)

-- ===== src/StateTracking/Sends/Count.antt =====
-- How many messages one call of `on_error` enqueues.
use mathlib.Core.List.{append-nil, append_assoc}
use worker_template.Prelude.{
  ℕ, suc, ◌≤◌, ◌≡◌, refl, sym, ap, ◌∙◌, Option, none, some, List, [], ◌∷◌, ◌++◌, arith, replicate,
  replicate-append,
}
use worker_template.Exec.{Result, ok, err, pure, modify, ◌>>=◌}
use worker_template.Exec.Holds.{
  Post-final, Holds, Post, Holds-bind, Holds-pure, Holds-raise, Holds-gets, Holds-if, Holds-mono,
}
use worker_template.Models.{Uuid, TaskDispatchResult, dispatched, TaskAttempt}
use worker_template.Message.{TaskiqMessage, TaskException}
use worker_template.World.{Env, World, Worker, kiq}
use worker_template.Retry.{Tenacity, db_retry}
use worker_template.Retry.Limit.{db_retry_count}
use worker_template.StateTracking.Extract.{extract_task_execution_id}
use worker_template.StateTracking.Decision.{ErrorContext, RetryDecision}
use worker_template.StateTracking.Recording.{requeue, dispatch_retry}
use worker_template.StateTracking.Handlers.{
  resume_from, resume_dispatch, first_dispatch, handle_allowed, decide_and_record,
  record_in_session, record_error_status, new_attempt, error_body, on_error,
}
use worker_template.StateTracking.Sound.Calls.{
  Holds-effect, emit_status_event-Holds, Holds-with_session,
}
use worker_template.StateTracking.Sends.Quiet.{Quiet, Quiet-bind, Quiet-commit, Quiet-pure}
use worker_template.StateTracking.Sends.Recording.{
  get_task_execution-Quiet, get_task_attempt_dispatch_state-Quiet,
  get_latest_pending_task_attempt-Quiet, record_initial_error_status-Quiet, after_requeue-Quiet,
  after_dispatch_error-Quiet, recover_dispatch_audit-Quiet, reconcile-Quiet, handle_refused-Quiet,
  mark_shadowed-Quiet,
}

-- `n` copies of the message at most stand behind what was sent before.
pub record SentUpTo (base : List TaskiqMessage) (message : TaskiqMessage) (n : ℕ) (w : World)
    : Type 0 where
  pub copies : ℕ
  pub at_most : copies ≤ n
  pub sent : w.sent ≡ base ++ replicate copies message

pub Post-of_final :
    {A : Type 0} (P : World → Type 0) (r : Result A × World) → P r.1 → Post (λ _. P) P r
Post-of_final P (ok a, w) h = h
Post-of_final P (err e, w) h = h

module _ (base : List TaskiqMessage) (message : TaskiqMessage) where
  abbrev UpTo : ℕ → World → Type 0
  UpTo n w = SentUpTo base message n w

  UpTo-same : (n : ℕ) (w w' : World) → w'.sent ≡ w.sent → UpTo n w → UpTo n w'
  UpTo-same n w w' e h = record { copies = h.copies; at_most = h.at_most; sent = e ∙ h.sent }

  UpTo-more : (n : ℕ) (w : World) → UpTo n w → UpTo (suc n) w
  UpTo-more n w h = record { copies = h.copies; at_most = omega arith; sent = h.sent }

  UpTo-send : (n : ℕ) (w w' : World) → w'.sent ≡ w.sent ++ message ∷ [] → UpTo n w → UpTo (suc n) w'
  UpTo-send n w w' e h = record {
    copies = suc h.copies;
    at_most = omega arith;
    sent =
        e
        ∙ ap (λ l. l ++ message ∷ []) h.sent
        ∙ append_assoc base (replicate h.copies message) (message ∷ [])
        ∙ ap (λ l. base ++ l) (replicate-append h.copies message);
  }

  Quiet-UpTo :
      {A : Type 0} (n : ℕ) (m : Worker A) → Quiet m → Holds (UpTo n) m (λ _. UpTo n) (UpTo n)
  Quiet-UpTo n m q = record {
    at = λ w h. Post-of_final (UpTo n) (m w) (UpTo-same n w (m w).1 (q.at w) h);
  }

  -- A quiet step on the way to a send.
  Quiet-before :
      {A : Type 0} (n : ℕ) (m : Worker A) → Quiet m → Holds (UpTo n) m (λ _. UpTo n) (UpTo (suc n))
  Quiet-before n m q =
      Holds-mono m (Quiet-UpTo n m q) (λ w h. h) (λ _ w h. h) (λ w h. UpTo-more n w h)

  -- A quiet action sends no more than one message.
  Quiet-whole :
      {A : Type 0} (n : ℕ) (m : Worker A)
      → Quiet m
      → Holds (UpTo n) m (λ _. UpTo (suc n)) (UpTo (suc n))
  Quiet-whole n m q =
      Holds-mono m (Quiet-UpTo n m q) (λ w h. h) (λ _ w h. UpTo-more n w h) (λ w h. UpTo-more n w h)

  module _ (env : Env) (n : ℕ) where
    abbrev SendsOne : {A : Type 0} → Worker A → Type 0
    SendsOne m = Holds (UpTo n) m (λ _. UpTo (suc n)) (UpTo (suc n))

    requeue-SendsOne : Holds (UpTo n) (requeue message) (λ _. UpTo (suc n)) (UpTo (suc n))
    unfolding requeue kiq
    requeue-SendsOne = record {
      at = λ w h. Post-final (UpTo (suc n)) (kiq message w) (sent.at w h);
    }
      where
        sent : SendsOne (kiq message)
        sent =
            Holds-effect _ (λ w rest h. UpTo-send n w _ refl h)
              (λ w rest h. UpTo-same (suc n) w _ refl (UpTo-more n w h))
              (λ w rest h. UpTo-send n w _ refl h)

    dispatch_retry-SendsOne :
        (ctx : ErrorContext) (d : RetryDecision)
        → ctx.message ≡ message
        → SendsOne (dispatch_retry env ctx d)
    unfolding dispatch_retry
    dispatch_retry-SendsOne ctx d e = Holds-bind _ _ (rw e requeue-SendsOne) λ requeued.
        Holds-if requeued _ _ (λ _. Quiet-UpTo (suc n) _ (after_requeue-Quiet env ctx d))
          (λ _. Quiet-UpTo (suc n) _ (after_dispatch_error-Quiet env ctx d))

    resume_from-SendsOne :
        (ctx : ErrorContext) (d : RetryDecision) (number : ℕ) (result : TaskDispatchResult)
        → ctx.message ≡ message
        → SendsOne (resume_from env ctx d number result)
    unfolding resume_from
    resume_from-SendsOne ctx d number dispatched e =
        Quiet-whole n _
          (Quiet-bind _ _ (recover_dispatch_audit-Quiet env ctx number) (λ _. Quiet-pure _))
    resume_from-SendsOne ctx d number _ e =
        Holds-bind _ _ (Quiet-before n _ Quiet-commit) (λ _. dispatch_retry-SendsOne ctx d e)

    resume_dispatch-SendsOne :
        (ctx : ErrorContext) (d : RetryDecision) (found : Option TaskAttempt)
        → ctx.message ≡ message
        → SendsOne (resume_dispatch env ctx d found)
    unfolding resume_dispatch
    resume_dispatch-SendsOne ctx d none e = Holds-raise _ (λ w h. UpTo-more n w h)
    resume_dispatch-SendsOne ctx d (some row) e =
        resume_from-SendsOne ctx d row.attempt_number row.dispatch_result e

    first_dispatch-SendsOne :
        (ctx : ErrorContext) (d : RetryDecision)
        → ctx.message ≡ message
        → SendsOne (first_dispatch env ctx d)
    unfolding first_dispatch
    first_dispatch-SendsOne ctx d e =
        Holds-bind _ _ (Quiet-before n _ (get_latest_pending_task_attempt-Quiet _)) λ found.
          Holds-bind _ _ (Quiet-before n _ (reconcile-Quiet env _ found)) λ _.
            Holds-bind _ _ (Quiet-before n _ (record_initial_error_status-Quiet env ctx d)) λ _.
              Holds-bind _ _ (Quiet-before n _ Quiet-commit) (λ _. dispatch_retry-SendsOne ctx d e)

    handle_allowed-SendsOne :
        (ctx : ErrorContext) (d : RetryDecision)
        → ctx.message ≡ message
        → SendsOne (handle_allowed env ctx d)
    unfolding handle_allowed
    handle_allowed-SendsOne ctx d e =
        Holds-if d.retry_already_recorded _ _
          (λ _. Holds-bind {Q = λ _. UpTo n} _ _ (Holds-gets _ (λ w h. h)) λ number.
            Holds-bind _ _ (Quiet-before n _ (get_task_attempt_dispatch_state-Quiet _ number))
              (λ found. resume_dispatch-SendsOne ctx d found e))
          (λ _. first_dispatch-SendsOne ctx d e)

    decide_and_record-SendsOne :
        (ctx : ErrorContext) → ctx.message ≡ message → SendsOne (decide_and_record env ctx)
    unfolding decide_and_record
    decide_and_record-SendsOne ctx e =
        Holds-bind {Q = λ _. UpTo n} _ _ (Holds-gets _ (λ w h. h)) λ d.
          Holds-bind _ _
            (Holds-if d.retry_allowed _ _ (λ _. handle_allowed-SendsOne ctx d e)
              (λ _. Quiet-whole n _ (handle_refused-Quiet env ctx d)))
            λ outcome.
              Holds-bind _ _ (Quiet-UpTo (suc n) _ (mark_shadowed-Quiet env d))
                (λ _. Holds-pure _ (λ w h. h))

    record_error_status-SendsOne :
        (raised_error : TaskException) (id : Uuid)
        → SendsOne (record_error_status env message raised_error id)
    unfolding record_error_status record_in_session
    record_error_status-SendsOne raised_error id =
        Holds-bind _ _
          (Holds-with_session {P' = UpTo n} _ (λ w h. UpTo-same n w _ refl h)
            (Holds-bind _ _ (Quiet-before n _ (get_task_execution-Quiet id none))
              (λ task. decide_and_record-SendsOne _ refl)))
          (λ outcome.
            emit_status_event-Holds (λ w rest h. UpTo-same (suc n) w _ refl h) env message outcome.0
              _ _ (λ w x h. UpTo-same (suc n) w _ refl h))

error_body-UpTo :
    (env : Env) (tenacity : Tenacity World) (message : TaskiqMessage) (raised_error : TaskException)
    (id : Option Uuid) (w : World)
    → Post
        (λ _. SentUpTo w.sent message 3)
        (SentUpTo w.sent message 3)
        (error_body env (db_retry tenacity) message raised_error id w)
unfolding error_body pure modify ◌>>=◌
error_body-UpTo env tenacity message raised_error none w = record {
  copies = 0;
  at_most = omega arith;
  sent = sym (append-nil w.sent);
}
error_body-UpTo env tenacity message raised_error (some id) w =
    db_retry_count tenacity (λ n. SentUpTo w.sent message n)
      (record_error_status env message raised_error id)
      (λ n. record_error_status-SendsOne w.sent message env n raised_error id)
      (λ n v h. UpTo-more w.sent message n v h) (record w { attempt = new_attempt })
      (record { copies = 0; at_most = omega arith; sent = sym (append-nil w.sent) })

-- However the calls of the database, of the broker and of Socket.IO end, one call of `on_error` puts
-- nothing on the broker's queue but copies of the very message that it handles, three at most, behind
-- what was sent before.
pub on_error-SentUpTo :
    (env : Env) (tenacity : Tenacity World) (message : TaskiqMessage) (raised_error : TaskException)
    (w : World)
    → SentUpTo w.sent message 3 (on_error env tenacity message raised_error w).1
unfolding on_error
on_error-SentUpTo env tenacity message raised_error w =
    Post-final (SentUpTo w.sent message 3) _
      (error_body-UpTo env tenacity message raised_error (extract_task_execution_id env message) w)

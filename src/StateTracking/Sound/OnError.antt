-- ===== src/StateTracking/Sound/OnError.antt =====
-- The invariant, over `_record_error_status`.
use worker_template.Prelude.{ℕ, ◌≡◌, false, Option, none, some, if◌then◌else◌}
use worker_template.Exec.Holds.{
  Holds, Keeps, Holds-bind, Holds-pure, Holds-raise, Holds-gets, Holds-if, Holds-modify, Holds-mono,
}
use worker_template.Models.{Uuid, TaskAttempt, TaskDispatchResult, dispatched, Tables}
use worker_template.Message.{TaskiqMessage, TaskException}
use worker_template.World.{Env, World, commit}
use worker_template.StateTracking.Decision.{ErrorContext, RetryDecision, resolve_retry_decision}
use worker_template.StateTracking.Recording.{record_initial_error_status}
use worker_template.StateTracking.Handlers.{
  resume_dispatch, reconcile, first_dispatch, handle_allowed, handle_refused, resume_from,
  mark_shadowed, decide_and_record, record_in_session, record_error_status,
}
use worker_template.StateTracking.Sound.Rows.{IsSound}
use worker_template.StateTracking.Sound.Calls.{Stable, emit_status_event-Holds, Holds-with_session}
use worker_template.StateTracking.Sound.Services.{Found, Inside, Holds-get_task_execution}
use worker_template.StateTracking.Sound.Audited.{
  KeptByMark, Inside-marked, get_task_attempt_dispatch_state-Keeps,
  get_latest_pending_task_attempt-Keeps, mark_task_attempt_dispatched-Keeps,
}
use worker_template.StateTracking.Sound.Decision.{IsDecision, resolve-IsDecision, may_retry-Room}
use worker_template.StateTracking.Sound.Recording.{
  RoomFor, commit-Inside, record_initial_error_status-Inside, require_marked-Keeps,
  dispatch_retry-Inside, recover_dispatch_audit-Inside,
}

module _ (env : Env) (base : Tables) where
  abbrev pub Outside : World → Type 0
  Outside w = IsSound base w.committed

  -- Inside a session, with room for the retry that was decided.
  abbrev Ready : ErrorContext → RetryDecision → World → Type 0
  Ready ctx d w = Inside base w × (d.retry_already_recorded ≡ false → RoomFor ctx d w)

  Ready-marked : (ctx : ErrorContext) (d : RetryDecision) → KeptByMark (Ready ctx d)
  Ready-marked ctx d w h row = (Inside-marked base w h.0 row, h.1)

  reconcile-Keeps :
      (P : World → Type 0)
      → Stable P
      → KeptByMark P
      → (id : Uuid) (found : Option TaskAttempt) → Keeps P (reconcile id found)
  unfolding reconcile
  reconcile-Keeps P stable marks id none = Holds-pure tt (λ w h. h)
  reconcile-Keeps P stable marks id (some pending_attempt) =
      Holds-bind _ _ (mark_task_attempt_dispatched-Keeps stable marks id _)
        (λ marked. require_marked-Keeps env base marked _)

  first_dispatch-Inside :
      (ctx : ErrorContext) (d : RetryDecision)
      → IsDecision ctx d
      → d.retry_already_recorded ≡ false
      → Holds (Ready ctx d) (first_dispatch env ctx d) (λ _. Inside base) (Inside base)
  unfolding first_dispatch
  first_dispatch-Inside ctx d good new =
      Holds-bind _ _
        (Holds-mono _
          (get_latest_pending_task_attempt-Keeps (λ w rest h. h) (Ready-marked ctx d)
            ctx.task_execution_id)
          (λ w h. h) (λ _ w h. h) (λ w h. h.0))
        λ found.
          Holds-bind _ _
            (Holds-mono _
              (reconcile-Keeps (Ready ctx d) (λ w rest h. h) (Ready-marked ctx d)
                ctx.task_execution_id found)
              (λ w h. h) (λ _ w h. (h.0, h.1 new)) (λ w h. h.0))
            λ _.
              Holds-bind _ _
                (record_initial_error_status-Inside env base ctx d good.numbered
                  (good.hook_status new))
                λ _.
                  Holds-bind _ _ (commit-Inside env base)
                    (λ _. dispatch_retry-Inside env base ctx d good.numbered)

  resume_from-Inside :
      (ctx : ErrorContext) (d : RetryDecision) (number : ℕ) (result : TaskDispatchResult)
      → IsDecision ctx d
      → Keeps (Inside base) (resume_from env ctx d number result)
  unfolding resume_from
  resume_from-Inside ctx d number dispatched good =
      Holds-bind _ _ (recover_dispatch_audit-Inside env base ctx number)
        (λ _. Holds-pure _ (λ w h. h))
  resume_from-Inside ctx d number _ good =
      Holds-bind _ _ (commit-Inside env base)
        (λ _. dispatch_retry-Inside env base ctx d good.numbered)

  resume_dispatch-Inside :
      (ctx : ErrorContext) (d : RetryDecision) (found : Option TaskAttempt)
      → IsDecision ctx d
      → Keeps (Inside base) (resume_dispatch env ctx d found)
  unfolding resume_dispatch
  resume_dispatch-Inside ctx d none good = Holds-raise _ (λ w h. h)
  resume_dispatch-Inside ctx d (some row) good =
      resume_from-Inside ctx d row.attempt_number row.dispatch_result good

  handle_allowed-Inside :
      (ctx : ErrorContext) (d : RetryDecision)
      → IsDecision ctx d
      → Holds (Ready ctx d) (handle_allowed env ctx d) (λ _. Inside base) (Inside base)
  unfolding handle_allowed
  handle_allowed-Inside ctx d good =
      Holds-if d.retry_already_recorded _ _
        (λ _. Holds-bind {Q = λ _. Inside base} _ _ (Holds-gets _ (λ w h. h.0)) λ number.
          Holds-bind _ _
            (get_task_attempt_dispatch_state-Keeps (λ w rest h. h) (Inside-marked base)
              ctx.task_execution_id number)
            (λ found. resume_dispatch-Inside ctx d found good))
        (λ new. first_dispatch-Inside ctx d good new)

  handle_refused-Inside :
      (ctx : ErrorContext) (d : RetryDecision)
      → IsDecision ctx d
      → Holds (Ready ctx d) (handle_refused env ctx d) (λ _. Inside base) (Inside base)
  unfolding handle_refused
  handle_refused-Inside ctx d good =
      Holds-mono _
        (Holds-if d.retry_already_recorded _ _
          (λ _. Holds-bind _ _ committed (λ _. Holds-pure _ (λ w h. h)))
          (λ new.
            Holds-bind _ _ (recorded new)
              λ _. Holds-bind _ _ (commit-Inside env base) (λ _. Holds-pure _ (λ w h. h))))
        (λ w h. h) (λ _ w h. h) (λ w h. h)
    where
      committed : Holds (Ready ctx d) commit (λ _. Inside base) (Inside base)
      committed = Holds-mono _ (commit-Inside env base) (λ w h. h.0) (λ _ w h. h) (λ w h. h)

      recorded :
          d.retry_already_recorded ≡ false
          → Holds
              (Ready ctx d)
              (record_initial_error_status env ctx d)
              (λ _. Inside base)
              (Inside base)
      recorded new =
          Holds-mono _
            (record_initial_error_status-Inside env base ctx d good.numbered (good.hook_status new))
            (λ w h. (h.0, h.1 new)) (λ _ w h. h) (λ w h. h)

  mark_shadowed-Inside : (d : RetryDecision) → Keeps (Inside base) (mark_shadowed d)
  unfolding mark_shadowed
  mark_shadowed-Inside d =
      Holds-if d.retry_shadowed _ _ (λ _. Holds-modify _ (λ w h. h)) (λ _. Holds-pure tt (λ w h. h))

  decide_and_record-Inside :
      (ctx : ErrorContext)
      → Holds
          (λ w. Inside base w × Found ctx.task_execution_id ctx.task w)
          (decide_and_record env ctx)
          (λ _. Inside base)
          (Inside base)
  unfolding decide_and_record
  decide_and_record-Inside ctx =
      Holds-bind {Q = λ d w. Ready ctx d w × IsDecision ctx d} _ _ (Holds-gets _ decided) λ d.
        Holds-bind {Q = λ _. Inside base} _ _ (handled d)
          λ outcome. Holds-bind _ _ (mark_shadowed-Inside d) (λ _. Holds-pure _ (λ w h. h))
    where
      decided :
          (w : World)
          → Inside base w × Found ctx.task_execution_id ctx.task w
          → Ready ctx (resolve_retry_decision env ctx w.attempt) w
            × IsDecision ctx (resolve_retry_decision env ctx w.attempt)
      decided w h =
          let good : IsDecision ctx (resolve_retry_decision env ctx w.attempt) =
            resolve-IsDecision env ctx w.attempt in
          (
            (
              h.0,
              λ new retries.
                  may_retry-Room ctx.task_execution_id ctx.task w h.1 (good.fresh new retries),
            ),
            good,
          )

      handled :
          (d : RetryDecision)
          → Holds
              (λ w. Ready ctx d w × IsDecision ctx d)
              (if d.retry_allowed then handle_allowed env ctx d else handle_refused env ctx d)
              (λ _. Inside base)
              (Inside base)
      handled d = record {
        at = λ w h.
            (Holds-if {P = Ready ctx d} d.retry_allowed _ _ (λ _. handle_allowed-Inside ctx d h.1)
                (λ _. handle_refused-Inside ctx d h.1)).at
              w h.0;
      }

  pub record_error_status-Outside :
      (message : TaskiqMessage) (raised_error : TaskException) (id : Uuid)
      → Keeps Outside (record_error_status env message raised_error id)
  unfolding record_error_status record_in_session
  record_error_status-Outside message raised_error id =
      Holds-bind _ _
        (Holds-with_session {P' = Inside base} {Q = λ _. Outside} _ (λ w h. (h, h))
          (Holds-mono _
            (Holds-bind _ _ (Holds-get_task_execution {P = Inside base} id (λ w rest h. h))
              (λ task. decide_and_record-Inside _))
            (λ w h. h) (λ _ w h. h.0) (λ w h. h.0)))
        (λ outcome. emit_status_event-Holds (λ w rest h. h) env message outcome.0 _ _ (λ w e h. h))

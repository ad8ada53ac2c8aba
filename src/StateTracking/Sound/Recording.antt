-- ===== src/StateTracking/Sound/Recording.antt =====
-- The invariant, over the parts of `on_error` that record and dispatch a retry inside a session.
use worker_template.Prelude.{ℕ, ◌≤◌, ◌≡◌, refl, String, Bool, true, not, ◌&&◌, Option, none, some}
use worker_template.Exec.Holds.{
  Holds, Keeps, Holds-bind, Holds-pure, Holds-raise, Holds-gets, Holds-if, Holds-modify, Holds-mono,
}
use worker_template.Models.{
  Uuid, TaskStatus, TaskDispatchResult, retrying, failed, dispatch_failed, TaskExecution, Tables,
}
use worker_template.World.{Env, World, commit}
use worker_template.Services.TaskAttemptService.{mark_task_attempt_dispatched}
use worker_template.StateTracking.Decision.{ErrorContext, RetryDecision}
use worker_template.StateTracking.Recording.{
  tenant_of, record_attempt_of, record_decision, record_initial_error_status, require_marked,
  set_no_result, after_requeue, after_dispatch_error, dispatch_retry, recover_dispatch_audit,
}
use worker_template.StateTracking.Sound.Calls.{Holds-effect, Holds-requeue}
use worker_template.StateTracking.Sound.Rows.{is_hook_status}
use worker_template.StateTracking.Sound.Services.{Room, Inside, update_task_status-Inside}
use worker_template.StateTracking.Sound.Audited.{
  Inside-marked, mark_task_attempt_dispatched-Keeps, record_task_attempt-Keeps,
}

-- Room for the retry that a decision has made.
abbrev pub RoomFor : ErrorContext → RetryDecision → World → Type 0
RoomFor ctx d w = d.status ≡ retrying → Room ctx.task_execution_id w

module _ (env : Env) (base : Tables) where
  pub commit-Inside : Keeps (Inside base) commit
  unfolding commit
  commit-Inside =
      Holds-effect {Q = λ _. Inside base} _ (λ w rest h. (h.1, h.1)) (λ w rest h. h)
        (λ w rest h. (h.1, h.1))

  tenant_of-Inside : (task : Option TaskExecution) → Keeps (Inside base) (tenant_of task)
  unfolding tenant_of
  tenant_of-Inside none = Holds-raise _ (λ w h. h)
  tenant_of-Inside (some task) = Holds-pure _ (λ w h. h)

  record_attempt_of-Inside :
      (ctx : ErrorContext) (number : ℕ) (status_before status_after : TaskStatus)
      (dispatch_result : TaskDispatchResult)
      → 1 ≤ number
      → Keeps
          (Inside base)
          (record_attempt_of env ctx number status_before status_after dispatch_result)
  unfolding record_attempt_of
  record_attempt_of-Inside ctx number status_before status_after dispatch_result n =
      Holds-bind _ _ (tenant_of-Inside ctx.task) λ tenant_id.
        Holds-bind _ _ (record_task_attempt-Keeps base env _ n) (λ _. Holds-pure tt (λ w h. h))

  record_decision-Inside :
      (ctx : ErrorContext) (d : RetryDecision)
      → 1 ≤ d.attempt_number
      → Keeps (Inside base) (record_decision env ctx d)
  unfolding record_decision
  record_decision-Inside ctx d n =
      Holds-if (d.should_retry && not d.retry_allowed) _ _
        (λ _. record_attempt_of-Inside ctx d.attempt_number d.status_before d.status _ n)
        (λ _.
          Holds-if d.retry_allowed _ _
            (λ _.
              Holds-bind {Q = λ _. Inside base} _ _ (Holds-modify _ (λ w h. h))
                (λ _. record_attempt_of-Inside ctx d.attempt_number d.status_before retrying _ n))
            (λ _. Holds-pure tt (λ w h. h)))

  pub record_initial_error_status-Inside :
      (ctx : ErrorContext) (d : RetryDecision)
      → 1 ≤ d.attempt_number
      → is_hook_status d.status ≡ true
      → Holds
          (λ w. Inside base w × RoomFor ctx d w)
          (record_initial_error_status env ctx d)
          (λ _. Inside base)
          (Inside base)
  unfolding record_initial_error_status
  record_initial_error_status-Inside ctx d n hook =
      Holds-bind _ _ (update_task_status-Inside base env ctx.task_execution_id d.status _ hook) λ _.
        Holds-bind {Q = λ _. Inside base} _ _ (Holds-modify _ (λ w h. h))
          (λ _. record_decision-Inside ctx d n)

  pub require_marked-Keeps :
      {P : World → Type 0} (marked : Bool) (message : String)
      → Keeps P (require_marked marked message)
  unfolding require_marked
  require_marked-Keeps marked message =
      Holds-if marked _ _ (λ _. Holds-pure tt (λ w h. h)) (λ _. Holds-raise _ (λ w h. h))

  set_no_result-Inside : Keeps (Inside base) set_no_result
  unfolding set_no_result
  set_no_result-Inside = Holds-modify _ (λ w h. h)

  mark-Inside :
      (id : Uuid) (number : ℕ) → Keeps (Inside base) (mark_task_attempt_dispatched id number)
  mark-Inside = mark_task_attempt_dispatched-Keeps (λ w rest h. h) (Inside-marked base)

  after_requeue-Inside :
      (ctx : ErrorContext) (d : RetryDecision) → Keeps (Inside base) (after_requeue env ctx d)
  unfolding after_requeue
  after_requeue-Inside ctx d =
      Holds-bind {Q = λ _. Inside base} _ _ (Holds-gets _ (λ w h. h)) λ number.
        Holds-bind _ _ (mark-Inside ctx.task_execution_id number) λ marked.
          Holds-bind _ _ (require_marked-Keeps marked _) λ _.
            Holds-bind _ _ commit-Inside
              λ _. Holds-bind _ _ set_no_result-Inside (λ _. Holds-pure _ (λ w h. h))

  after_dispatch_error-Inside :
      (ctx : ErrorContext) (d : RetryDecision)
      → 1 ≤ d.attempt_number
      → Keeps (Inside base) (after_dispatch_error env ctx d)
  unfolding after_dispatch_error
  after_dispatch_error-Inside ctx d n =
      Holds-bind _ _
        (Holds-mono _ (update_task_status-Inside base env ctx.task_execution_id failed _ refl)
          (λ w h. (h, λ e. cc)) (λ _ w h. h) (λ w h. h))
        λ _. Holds-bind {Q = λ _. Inside base} _ _ (Holds-modify _ (λ w h. h)) λ _.
          Holds-bind _ _
            (record_attempt_of-Inside ctx d.attempt_number retrying failed dispatch_failed n)
            λ _. Holds-bind _ _ commit-Inside (λ _. Holds-pure _ (λ w h. h))

  pub dispatch_retry-Inside :
      (ctx : ErrorContext) (d : RetryDecision)
      → 1 ≤ d.attempt_number
      → Keeps (Inside base) (dispatch_retry env ctx d)
  unfolding dispatch_retry
  dispatch_retry-Inside ctx d n =
      Holds-bind _ _ (Holds-requeue (λ w rest h. h) ctx.message (λ w h. h)) λ requeued.
        Holds-if requeued _ _ (λ _. after_requeue-Inside ctx d)
          (λ _. after_dispatch_error-Inside ctx d n)

  pub recover_dispatch_audit-Inside :
      (ctx : ErrorContext) (number : ℕ)
      → Keeps (Inside base) (recover_dispatch_audit env ctx number)
  unfolding recover_dispatch_audit
  recover_dispatch_audit-Inside ctx number =
      Holds-bind _ _ (mark-Inside ctx.task_execution_id number) λ marked.
        Holds-bind _ _ (require_marked-Keeps marked _)
          λ _. Holds-bind _ _ commit-Inside (λ _. set_no_result-Inside)

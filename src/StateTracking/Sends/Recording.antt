-- ===== src/StateTracking/Sends/Recording.antt =====
-- The queue, over the services and the recording of a retry.
use worker_template.Prelude.{ℕ, String, refl, Bool, Option, none, some}
use worker_template.Models.{Uuid, TaskStatus, TaskDispatchResult, TaskExecution, TaskAttempt}
use worker_template.World.{Env}
use worker_template.Services.TaskExecutionService.{
  StatusFields, get_task_execution, store_status, update_task_status,
}
use worker_template.Services.TaskAttemptService.{
  get_task_attempt_dispatch_state, get_latest_pending_task_attempt, mark_found,
  mark_task_attempt_dispatched, AttemptFields, record_task_attempt,
}
use worker_template.StateTracking.Decision.{ErrorContext, RetryDecision}
use worker_template.StateTracking.Recording.{
  tenant_of, record_attempt_of, record_decision, record_initial_error_status, require_marked,
  set_no_result, after_requeue, after_dispatch_error, recover_dispatch_audit,
}
use worker_template.StateTracking.Handlers.{reconcile, handle_refused, mark_shadowed}
use worker_template.StateTracking.Sends.Quiet.{
  Quiet, Quiet-if, Quiet-bind, Quiet-pure, Quiet-modify, Quiet-commit, quiet_rules,
}

pub get_task_execution-Quiet :
    (id : Uuid) (tenant : Option Uuid) → Quiet (get_task_execution id tenant)
unfolding get_task_execution
get_task_execution-Quiet id tenant = search quiet_rules

module _ (env : Env) where
  store_status-Quiet :
      (status : TaskStatus) (given : StatusFields) (found : Option TaskExecution)
      → Quiet (store_status env status given found)
  unfolding store_status
  store_status-Quiet status given none = search quiet_rules
  store_status-Quiet status given (some task) = search quiet_rules

  pub update_task_status-Quiet :
      (id : Uuid) (status : TaskStatus) (given : StatusFields)
      → Quiet (update_task_status env id status given)
  unfolding update_task_status
  update_task_status-Quiet id status given =
      search (quiet_rules, get_task_execution-Quiet, store_status-Quiet)

  record_task_attempt-Quiet : (given : AttemptFields) → Quiet (record_task_attempt env given)
  unfolding record_task_attempt
  record_task_attempt-Quiet given = search quiet_rules

pub get_task_attempt_dispatch_state-Quiet :
    (id : Uuid) (number : ℕ) → Quiet (get_task_attempt_dispatch_state id number)
unfolding get_task_attempt_dispatch_state
get_task_attempt_dispatch_state-Quiet id number = search quiet_rules

pub get_latest_pending_task_attempt-Quiet : (id : Uuid) → Quiet (get_latest_pending_task_attempt id)
unfolding get_latest_pending_task_attempt
get_latest_pending_task_attempt-Quiet id = search quiet_rules

mark_found-Quiet : (found : Option TaskAttempt) → Quiet (mark_found found)
unfolding mark_found
mark_found-Quiet none = search quiet_rules
mark_found-Quiet (some attempt) = search quiet_rules

mark_task_attempt_dispatched-Quiet :
    (id : Uuid) (number : ℕ) → Quiet (mark_task_attempt_dispatched id number)
unfolding mark_task_attempt_dispatched
mark_task_attempt_dispatched-Quiet id number =
    search (quiet_rules, get_task_attempt_dispatch_state-Quiet, mark_found-Quiet)

module _ (env : Env) where
  tenant_of-Quiet : (task : Option TaskExecution) → Quiet (tenant_of task)
  unfolding tenant_of
  tenant_of-Quiet none = search quiet_rules
  tenant_of-Quiet (some task) = search quiet_rules

  record_attempt_of-Quiet :
      (ctx : ErrorContext) (number : ℕ) (before after : TaskStatus) (result : TaskDispatchResult)
      → Quiet (record_attempt_of env ctx number before after result)
  unfolding record_attempt_of
  record_attempt_of-Quiet ctx number before after result =
      search (quiet_rules, tenant_of-Quiet, record_task_attempt-Quiet)

  record_decision-Quiet :
      (ctx : ErrorContext) (d : RetryDecision) → Quiet (record_decision env ctx d)
  unfolding record_decision
  record_decision-Quiet ctx d = Quiet-if _ _ _ (record_attempt_of-Quiet ctx _ _ _ _) (
      Quiet-if _ _ _
        (Quiet-bind _ _ (Quiet-modify _ (λ w. refl))
          (λ _. record_attempt_of-Quiet ctx _ _ _ TaskDispatchResult.pending))
        (Quiet-pure tt))

  pub record_initial_error_status-Quiet :
      (ctx : ErrorContext) (d : RetryDecision) → Quiet (record_initial_error_status env ctx d)
  unfolding record_initial_error_status
  record_initial_error_status-Quiet ctx d =
      Quiet-bind _ _ (update_task_status-Quiet env _ _ _)
        λ _. Quiet-bind _ _ (Quiet-modify _ (λ w. refl)) (λ _. record_decision-Quiet ctx d)

  require_marked-Quiet : (marked : Bool) (message : String) → Quiet (require_marked marked message)
  unfolding require_marked
  require_marked-Quiet marked message = search quiet_rules

  set_no_result-Quiet : Quiet set_no_result
  unfolding set_no_result
  set_no_result-Quiet = Quiet-modify _ (λ w. refl)

  ruleset recording_rules =
      (quiet_rules, mark_task_attempt_dispatched-Quiet, require_marked-Quiet, set_no_result-Quiet)

  pub after_requeue-Quiet :
      (ctx : ErrorContext) (d : RetryDecision) → Quiet (after_requeue env ctx d)
  unfolding after_requeue
  after_requeue-Quiet ctx d = search recording_rules depth 12

  pub after_dispatch_error-Quiet :
      (ctx : ErrorContext) (d : RetryDecision) → Quiet (after_dispatch_error env ctx d)
  unfolding after_dispatch_error
  after_dispatch_error-Quiet ctx d = Quiet-bind _ _ (update_task_status-Quiet env _ _ _) λ _.
      Quiet-bind _ _ (Quiet-modify _ (λ w. refl)) λ _.
        Quiet-bind _ _ (record_attempt_of-Quiet ctx _ _ _ _)
          λ _. Quiet-bind _ _ Quiet-commit (λ _. Quiet-pure _)

  pub recover_dispatch_audit-Quiet :
      (ctx : ErrorContext) (number : ℕ) → Quiet (recover_dispatch_audit env ctx number)
  unfolding recover_dispatch_audit
  recover_dispatch_audit-Quiet ctx number = search recording_rules depth 12

  pub reconcile-Quiet : (id : Uuid) (found : Option TaskAttempt) → Quiet (reconcile id found)
  unfolding reconcile
  reconcile-Quiet id none = search quiet_rules
  reconcile-Quiet id (some pending_attempt) = search recording_rules

  pub handle_refused-Quiet :
      (ctx : ErrorContext) (d : RetryDecision) → Quiet (handle_refused env ctx d)
  unfolding handle_refused
  handle_refused-Quiet ctx d = search (quiet_rules, record_initial_error_status-Quiet) depth 8

  pub mark_shadowed-Quiet : (d : RetryDecision) → Quiet (mark_shadowed d)
  unfolding mark_shadowed
  mark_shadowed-Quiet d = Quiet-if _ _ _ (Quiet-modify _ (λ w. refl)) (Quiet-pure tt)

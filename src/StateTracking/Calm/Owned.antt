-- ===== src/StateTracking/Calm/Owned.antt =====
-- `on_error` and `post_execute` of one failed task whose retry is dispatched or shadowed.
use mathlib.Core.Path.{subst}
use worker_template.Prelude.{
  Bool, ◌+◌, ◌≡◌, refl, ap, ◌∙◌, true, ◌&&◌, none, some, List, [], ◌∷◌, ◌⊎◌, inl, inr, filter,
}
use worker_template.Exec.{ok}
use worker_template.Models.{Uuid, retrying, TaskExecution}
use worker_template.Message.{TaskiqMessage, TaskException}
use worker_template.World.{Env, Outcome, World}
use worker_template.Retry.{Tenacity}
use worker_template.Services.TaskExecutionService.{is_selected, apply_status}
use worker_template.StateTracking.Decision.{may_retry}
use worker_template.StateTracking.Handlers.{error_detail_of, post_execute, on_error}
use worker_template.StateTracking.Calm.Services.{calm, filter-write, named_id}
use worker_template.StateTracking.Calm.Dispatch.{retried_task}
use worker_template.StateTracking.Calm.Refused.{refused_task}
use worker_template.StateTracking.Calm.OnError.{
  IsRetriable, on_error-IsRetried, post_execute-IsOwned,
}
use worker_template.StateTracking.Calm.OnRefused.{IsRefusable, IsRefused, on_error-IsRefused}

-- A failure that `on_error` takes over: it is to be retried, or a retry is left and is shadowed.
abbrev pub IsTakenOver : Env → TaskiqMessage → Uuid → TaskExecution → World → Type 0
IsTakenOver env message id task w =
    IsRetriable env message id task w
    ⊎ (IsRefusable env message id task w
        × (may_retry (some task) ≡ true)
        × (env.settings.task_retry_shadow_mode ≡ true))

-- The one row of the task is RETRYING, with one more retry counted than `task` has.
pub record IsRetrying (id : Uuid) (task : TaskExecution) (w : World) : Type 0 where
  pub row : TaskExecution
  pub found : filter (is_selected id none) w.committed.executions ≡ row ∷ []
  pub status : row.status ≡ retrying
  pub counted : row.retry_count ≡ task.retry_count + 1

module _ (env : Env) (tenacity : Tenacity World) (message : TaskiqMessage)
    (raised_error : TaskException) (id : Uuid) (task : TaskExecution) (w : World)
    (outcomes : List Outcome) where
  -- What `on_error` leaves, where the calls after it end in any way.
  abbrev pub handled : World
  handled = record (on_error env tenacity message raised_error (calm w)).1 { schedule = outcomes }

  abbrev retried_row : TaskExecution
  retried_row =
      retried_task env id message (error_detail_of raised_error) task
        (record w { tables = w.committed })

  abbrev shadowed_row : TaskExecution
  shadowed_row =
      refused_task env id message (error_detail_of raised_error) task true true
        (record w { tables = w.committed })

  abbrev AsRefused : Bool × Bool → Type 0
  AsRefused (below, shadow) =
      IsRefused env message raised_error id task below shadow w
        (on_error env tenacity message raised_error (calm w))

  abbrev Stands : Type 0
  Stands =
      (post_execute env tenacity message handled ≡ (ok tt, handled)) × IsRetrying id task handled

  retried_stands : IsRetriable env message id task w → Stands
  unfolding apply_status
  retried_stands h =
      let ends = on_error-IsRetried env tenacity message raised_error id task w h in
      (
        post_execute-IsOwned env tenacity message handled (inl (ap (λ r. r.error) ends.result)),
        record {
          row = retried_row;
          found = rw ends.tables (
              filter-write id task retried_row w.committed.executions
                (named_id id task retried_row w.committed.executions h.found refl) h.found);
          status = refl;
          counted = refl;
        },
      )

  shadowed_stands :
      IsRefusable env message id task w
      → may_retry (some task) ≡ true
      → env.settings.task_retry_shadow_mode ≡ true
      → Stands
  unfolding apply_status
  shadowed_stands h below shadow =
      let refused = on_error-IsRefused env tenacity message raised_error id task w h in
      let held : (may_retry (some task) && env.settings.task_retry_shadow_mode) ≡ true =
        ap (λ b. b && env.settings.task_retry_shadow_mode) below ∙ shadow in
      let ends = subst AsRefused (λ i. (below i, held i)) refused in
      (
        post_execute-IsOwned env tenacity message handled
            (inr (ap (λ r. r.shadow_retry) ends.result)),
        record {
          row = shadowed_row;
          found = rw ends.tables (
              filter-write id task shadowed_row w.committed.executions
                (named_id id task shadowed_row w.committed.executions h.found refl) h.found);
          status = refl;
          counted = refl;
        },
      )

-- A failure for which `on_error`, with every call of it succeeding, dispatches a retry, or records one
-- that the shadow mode holds back: `post_execute`, called afterwards with the same result object,
-- returns and changes nothing at all, however the calls to come would end. The task stays RETRYING
-- with one more retry counted, and is not recorded as FAILED.
pub on_error-post_execute :
    (env : Env) (tenacity : Tenacity World) (message : TaskiqMessage) (raised_error : TaskException)
    (id : Uuid) (task : TaskExecution) (w : World) (outcomes : List Outcome)
    → IsTakenOver env message id task w
    → let left = record (on_error env tenacity message raised_error (calm w)).1 {
      schedule = outcomes;
    } in
      (post_execute env tenacity message left ≡ (ok tt, left)) × IsRetrying id task left
on_error-post_execute env tenacity message raised_error id task w outcomes (inl h) =
    retried_stands env tenacity message raised_error id task w outcomes h
on_error-post_execute env tenacity message raised_error id task w outcomes
      (inr (h, below, shadow)) =
    shadowed_stands env tenacity message raised_error id task w outcomes h below shadow

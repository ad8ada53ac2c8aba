-- ===== src/StateTracking/Sound/Decision.antt =====
-- What the decision of `on_error` promises to the code that carries it out.
use worker_template.Prelude.{
  ◌≤◌, ◌<◌, ◌≡◌, refl, Bool, true, false, Option, none, some, List, [], ◌∷◌, arith, ◌==◌, All,
}
use worker_template.Models.{Uuid, retrying, TaskExecution}
use worker_template.World.{Env, World, OnErrorAttempt}
use worker_template.Services.TaskExecutionService.{is_selected}
use worker_template.StateTracking.Decision.{
  ErrorContext, RetryDecision, next_number, may_retry, fresh_outcome, resolve_retry_decision,
}
use worker_template.StateTracking.Sound.Rows.{HasRoom, is_hook_status}
use worker_template.StateTracking.Sound.Writes.{filter-single}
use worker_template.StateTracking.Sound.Services.{Room, Found, one_row}

-- What the rest of the hook relies on: a decision that is not taken over from a recorded one retries
-- only below the maximum, an allowed retry is below it, and attempts are numbered from 1.
pub record IsDecision (ctx : ErrorContext) (d : RetryDecision) : Type 0 where
  pub fresh : d.retry_already_recorded ≡ false → d.status ≡ retrying → may_retry ctx.task ≡ true
  pub hook_status : d.retry_already_recorded ≡ false → is_hook_status d.status ≡ true
  pub numbered : 1 ≤ d.attempt_number

fresh-may_retry :
    (task : Option TaskExecution) (should allowed shadow : Bool)
    → (fresh_outcome task should allowed shadow).0 ≡ retrying
    → should ≡ true
unfolding fresh_outcome
fresh-may_retry none true allowed shadow e = refl
fresh-may_retry none false allowed shadow e = cc
fresh-may_retry (some task) true allowed shadow e = refl
fresh-may_retry (some task) false allowed shadow e = cc

fresh-is_hook_status :
    (task : Option TaskExecution) (should allowed shadow : Bool)
    → is_hook_status (fresh_outcome task should allowed shadow).0 ≡ true
unfolding fresh_outcome
fresh-is_hook_status (some task) true true shadow = refl
fresh-is_hook_status none true true shadow = refl
fresh-is_hook_status (some task) true false true = refl
fresh-is_hook_status none true false true = refl
fresh-is_hook_status (some task) true false false = refl
fresh-is_hook_status none true false false = refl
fresh-is_hook_status (some task) false allowed shadow = refl
fresh-is_hook_status none false allowed shadow = refl

pub resolve-IsDecision :
    (env : Env) (ctx : ErrorContext) (attempt : OnErrorAttempt)
    → IsDecision ctx (resolve_retry_decision env ctx attempt)
unfolding resolve_retry_decision
resolve-IsDecision env ctx attempt = record {
  fresh = λ e s. fresh-may_retry ctx.task _ _ _ (rw e at s);
  hook_status = λ e. rw e (fresh-is_hook_status ctx.task _ _ _);
  numbered = number-pos ctx.task;
}
  where
    number-pos : (task : Option TaskExecution) → 1 ≤ next_number task
    number-pos none = omega arith
    number-pos (some task) = omega arith

has_room :
    (id : Uuid) (task : TaskExecution) (rows : List TaskExecution)
    → task.retry_count < task.max_retries
    → All (λ row. (row.id == id) ≡ true → row ≡ task) rows
    → All (HasRoom id) rows
has_room id task [] lt h = tt
has_room id task (row ∷ rows) lt h = (λ e. rw (h.0 e) lt, has_room id task rows lt h.1)

-- Below the maximum there is room for one more retry.
pub may_retry-Room :
    (id : Uuid) (task : Option TaskExecution) (w : World)
    → Found id task w
    → may_retry task ≡ true
    → Room id w
unfolding may_retry
may_retry-Room id none w found e = cc
may_retry-Room id (some task) w found e =
    has_room id task w.tables.executions (ground arith)
      (filter-single (is_selected id none) w.tables.executions task (one_row _ task found))

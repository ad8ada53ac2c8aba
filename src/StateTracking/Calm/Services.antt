-- ===== src/StateTracking/Calm/Services.antt =====
-- The services, where every call succeeds: each equation gives the result and the world after it.
use worker_template.Prelude.{
  ℕ, ◌+◌, ◌≡◌, refl, ap, true, none, some, List, [], ◌∷◌, ◌++◌, arith, filter, filter-head,
}
use worker_template.Exec.{ok, pure, lift, gets, ◌>>=◌}
use worker_template.Models.{
  Uuid, TaskStatus, TaskDispatchResult, TaskExecution, TaskAttempt, is_pending,
}
use worker_template.World.{Env, World, effect, execute, flush, refresh, reading}
use worker_template.Services.TaskExecutionService.{
  is_selected, StatusFields, apply_status, write_execution, get_task_execution, store_status,
  update_task_status,
}
use worker_template.Services.TaskAttemptService.{
  latest, is_open_attempt, is_pending_attempt, set_dispatched, get_task_attempt_dispatch_state,
  get_latest_pending_task_attempt, mark_found, mark_task_attempt_dispatched, AttemptFields,
  record_task_attempt,
}

-- A world in which no call fails.
abbrev pub calm : World → World
calm w = record w { schedule = [] }

-- A world in which no call is to fail is calm.
pub calm_eq : (w : World) → w.schedule ≡ [] → w ≡ calm w
calm_eq w quiet = ap (λ s. record w { schedule = s }) quiet

filter-write_none :
    (id : Uuid) (changed : TaskExecution) (rows : List TaskExecution)
    → changed.id ≡ id
    → filter (is_selected id none) rows ≡ []
    → filter (is_selected id none) (write_execution changed rows) ≡ []
unfolding write_execution
filter-write_none id changed [] e none_found = refl
filter-write_none id changed (row ∷ rows) e none_found =
    ground (arith, filter-write_none id changed rows e)

-- After the update the query finds the updated row.
pub filter-write :
    (id : Uuid) (task changed : TaskExecution) (rows : List TaskExecution)
    → changed.id ≡ id
    → filter (is_selected id none) rows ≡ task ∷ []
    → filter (is_selected id none) (write_execution changed rows) ≡ changed ∷ []
unfolding write_execution
filter-write id task changed [] e found = cc
filter-write id task changed (row ∷ rows) e found =
    ground (arith, filter-write id task changed rows e, filter-write_none id changed rows e)

-- The row that was found has the id, and so has what took its place.
pub named_id :
    (id : Uuid) (task changed : TaskExecution) (rows : List TaskExecution)
    → filter (is_selected id none) rows ≡ task ∷ []
    → changed.id ≡ task.id
    → changed.id ≡ id
named_id id task changed rows found same =
    ground (arith, same, filter-head (is_selected id none) rows task [] found)

pub get_task_execution-calm :
    (id : Uuid) (w : World) (task : TaskExecution)
    → filter (is_selected id none) w.tables.executions ≡ task ∷ []
    → get_task_execution id none (calm w) ≡ (ok (some task), calm w)
unfolding get_task_execution execute effect lift gets ◌>>=◌
get_task_execution-calm id w task e = ground arith

module _ (env : Env) where
  -- The world after a status update of the row `task`.
  abbrev pub updated : TaskStatus → StatusFields → TaskExecution → World → World
  updated status given task w = record w {
    tables = record w.tables {
      executions =
          write_execution (apply_status status given (env.now w.tick) task) w.tables.executions;
    };
    schedule = [];
    tick = w.tick + 1;
  }

  pub update_task_status-calm :
      (id : Uuid) (status : TaskStatus) (given : StatusFields) (w : World) (task : TaskExecution)
      → filter (is_selected id none) w.tables.executions ≡ task ∷ []
      → update_task_status env id status given (calm w)
        ≡ (ok (some (apply_status status given (env.now w.tick) task)), updated status given task w)
  unfolding update_task_status store_status reading flush refresh effect pure ◌>>=◌
  update_task_status-calm id status given w task e = rw (get_task_execution-calm id w task e)

  -- The audit row that the server stores.
  abbrev pub new_row : AttemptFields → World → TaskAttempt
  new_row given w = record {
    id = env.gen_random_uuid w.tick;
    created_at = env.now w.tick;
    updated_at = env.now w.tick;
    task_execution_id = given.task_execution_id;
    tenant_id = given.tenant_id;
    attempt_number = given.attempt_number;
    status_before = given.status_before;
    status_after = given.status_after;
    error_detail = given.error_detail;
    dispatch_result = given.dispatch_result;
  }

  abbrev pub audited : AttemptFields → World → World
  audited given w = record w {
    tables = record w.tables { attempts = w.tables.attempts ++ new_row given w ∷ [] };
    schedule = [];
    tick = w.tick + 1;
  }

  pub record_task_attempt-calm :
      (given : AttemptFields) (w : World)
      → record_task_attempt env given (calm w) ≡ (ok (new_row given w), audited given w)
  unfolding record_task_attempt reading flush effect pure ◌>>=◌
  record_task_attempt-calm given w = refl

pub get_latest_pending_task_attempt-calm :
    (id : Uuid) (w : World)
    → get_latest_pending_task_attempt id (calm w)
      ≡ (ok (latest (filter (is_pending_attempt id) w.tables.attempts)), calm w)
unfolding get_latest_pending_task_attempt execute effect gets ◌>>=◌
get_latest_pending_task_attempt-calm id w = refl

pub get_task_attempt_dispatch_state-calm :
    (id : Uuid) (number : ℕ) (w : World)
    → get_task_attempt_dispatch_state id number (calm w)
      ≡ (ok (latest (filter (is_open_attempt id number) w.tables.attempts)), calm w)
unfolding get_task_attempt_dispatch_state execute effect gets ◌>>=◌
get_task_attempt_dispatch_state-calm id number w = refl

pub mark_task_attempt_dispatched-calm :
    (id : Uuid) (number : ℕ) (w : World) (row : TaskAttempt)
    → filter (is_open_attempt id number) w.tables.attempts ≡ row ∷ []
    → row.dispatch_result ≡ TaskDispatchResult.pending
    → mark_task_attempt_dispatched id number (calm w) ≡ (
      ok true,
      record w {
        tables = record w.tables { attempts = set_dispatched row.id w.tables.attempts };
        schedule = [];
      },
    )
unfolding mark_task_attempt_dispatched get_task_attempt_dispatch_state execute mark_found flush
    effect gets pure latest is_pending ◌>>=◌
mark_task_attempt_dispatched-calm id number w row e p = rw e (rw p)

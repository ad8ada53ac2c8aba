-- ===== src/StateTracking/Sends/Paid.antt =====
-- Messages and retries over one call of `on_error`, where no call is to fail.
use worker_template.Prelude.{
  ℕ, ◌+◌, ◌≡◌, refl, ap, ◌∙◌, Bool, true, false, ◌⊎◌, inl, inr, Option, none, some, List, [], ◌∷◌,
  ◌++◌, arith, length, filter, filter-head,
}
use worker_template.Exec.{pure}
use worker_template.Models.{Uuid, TaskExecution}
use worker_template.Message.{TaskiqMessage, TaskException}
use worker_template.World.{Env, World}
use worker_template.Retry.{Tenacity}
use worker_template.Services.TaskExecutionService.{is_selected, apply_status, write_execution}
use worker_template.StateTracking.Extract.{extract_task_execution_id}
use worker_template.StateTracking.Decision.{gate_for}
use worker_template.StateTracking.Handlers.{error_body, on_error}
use worker_template.StateTracking.Calm.Services.{calm}
use worker_template.StateTracking.Calm.OnRefused.{on_error-IsRefused}
use worker_template.StateTracking.Calm.Enqueued.{IsEnqueued, on_error-IsEnqueued}
use worker_template.StateTracking.Calm.Unfound.{unknown-IsIdle, ambiguous-IsIdle}

-- The retries that the rows count.
abbrev pub spent : List TaskExecution → ℕ
spent [] = 0
spent (row ∷ rows) = row.retry_count + spent rows

-- The retries that the rows may count.
abbrev pub allowed : List TaskExecution → ℕ
allowed [] = 0
allowed (row ∷ rows) = row.max_retries + allowed rows

spent-write-none :
    (id : Uuid) (changed : TaskExecution) (rows : List TaskExecution)
    → changed.id ≡ id
    → filter (is_selected id none) rows ≡ []
    → spent (write_execution changed rows) ≡ spent rows
unfolding write_execution
spent-write-none id changed [] e absent = refl
spent-write-none id changed (row ∷ rows) e absent =
    ground (arith, spent-write-none id changed rows e)

spent-write :
    (id : Uuid) (task changed : TaskExecution) (rows : List TaskExecution)
    → changed.id ≡ id
    → changed.retry_count ≡ task.retry_count + 1
    → filter (is_selected id none) rows ≡ task ∷ []
    → spent (write_execution changed rows) ≡ spent rows + 1
unfolding write_execution
spent-write id task changed [] e one_more found = cc
spent-write id task changed (row ∷ rows) e one_more found =
    ground (arith, spent-write id task changed rows e one_more, spent-write-none id changed rows e)

-- What a hook has done to the queue: nothing, or one message more for one retry more; and no call is
-- to fail.
abbrev pub IsPaid : World → World → Type 0
IsPaid w w' =
    (w'.schedule ≡ [])
    × ((w'.sent ≡ w.sent)
        ⊎ ((length w'.sent ≡ length w.sent + 1)
            × (spent w'.committed.executions ≡ spent w.committed.executions + 1)))

length-append_one :
    (sent : List TaskiqMessage) (message : TaskiqMessage)
    → length (sent ++ message ∷ []) ≡ length sent + 1
length-append_one [] message = omega arith
length-append_one (m ∷ sent) message = omega (arith, length-append_one sent message)

module _ (env : Env) (tenacity : Tenacity World) (message : TaskiqMessage)
    (raised_error : TaskException) where
  enqueued-IsPaid :
      (id : Uuid) (task : TaskExecution) (w w' : World)
      → filter (is_selected id none) w.committed.executions ≡ task ∷ []
      → IsEnqueued env message raised_error id task w w'
      → IsPaid w w'
  unfolding apply_status
  enqueued-IsPaid id task w w' found h =
      let same : task.id ≡ id =
        ground (arith, filter-head (is_selected id none) w.committed.executions task [] found) in
      (
        h.quiet,
        inr (
          ap length h.sent ∙ length-append_one w.sent message,
          ap spent h.executions ∙ spent-write id task _ w.committed.executions same refl found,
        ),
      )

  found-IsPaid :
      (id : Uuid) (task : TaskExecution) (w : World) (open_gate : Bool)
      → extract_task_execution_id env message ≡ some id
      → filter (is_selected id none) w.committed.executions ≡ task ∷ []
      → gate_for env message (some task) ≡ open_gate
      → IsPaid w (on_error env tenacity message raised_error (calm w)).1
  found-IsPaid id task w true named found gate =
      enqueued-IsPaid id task w _ found
        (on_error-IsEnqueued env tenacity message raised_error id task w named gate found)
  found-IsPaid id task w false named found gate =
      let refused =
        on_error-IsRefused env tenacity message raised_error id task w
          (record { named = named; found = found; shut = gate }) in
      (refused.quiet, inl refused.sent)

  rows-IsPaid :
      (id : Uuid) (w : World) (rows : List TaskExecution)
      → extract_task_execution_id env message ≡ some id
      → filter (is_selected id none) w.committed.executions ≡ rows
      → IsPaid w (on_error env tenacity message raised_error (calm w)).1
  rows-IsPaid id w [] named e =
      let idle = unknown-IsIdle env tenacity message raised_error id w named e in
      (idle.1, inl idle.0)
  rows-IsPaid id w (task ∷ []) named e = found-IsPaid id task w _ named e refl
  rows-IsPaid id w (a ∷ b ∷ rows) named e =
      let idle = ambiguous-IsIdle env tenacity message raised_error id w named a b rows e in
      (idle.1, inl idle.0)

  unnamed-IsPaid :
      (w : World)
      → extract_task_execution_id env message ≡ none
      → IsPaid w (on_error env tenacity message raised_error (calm w)).1
  unfolding on_error error_body pure
  unnamed-IsPaid w named = rw named (refl, inl refl)

  pub on_error-IsPaid :
      (w : World) (named : Option Uuid)
      → extract_task_execution_id env message ≡ named
      → IsPaid w (on_error env tenacity message raised_error (calm w)).1
  on_error-IsPaid w none e = unnamed-IsPaid w e
  on_error-IsPaid w (some id) e = rows-IsPaid id w _ e refl

-- ===== src/StateTracking/Spec/Refined.antt =====
-- Every hook moves the rows along the transitions of the specification.
use worker_template.Prelude.{
  ℕ, ◌≤◌, ◌≡◌, refl, Option, none, some, List, [], ◌∷◌, map, arith, All, true, is_none,
  if◌then◌else◌, ◌&&◌,
}
use worker_template.Models.{
  TaskStatus, pending, queued, cancelled, partial, running, retrying, completed, failed,
  TaskExecution, is_terminal,
}
use worker_template.World.{Env, World}
use worker_template.Retry.{Tenacity}
use worker_template.Services.TaskExecutionService.{StatusFields, apply_status}
use worker_template.Services.TaskExecutionService.Updates.{
  Update, apply_all, or_else, apply_all-history,
}
use worker_template.StateTracking.Lifecycle.{Hook, run_hooks}
use worker_template.StateTracking.Spec.{
  life, Step, start, retry, succeed, fail, Steps, here, next, Lives,
}
use worker_template.StateTracking.Sound.Rows.{InBudget, is_hook_status, AreHookUpdates, Evolve}
use worker_template.StateTracking.Sound.Hooks.{run_hooks-IsSound}

-- What is left of a history counts no fewer retries than the row has.
grows :
    (updates : List Update) (row : TaskExecution)
    → row.retry_count ≤ (apply_all updates row).retry_count
grows updates row = omega (arith, (apply_all-history updates row).3)

max_kept :
    (updates : List Update) (row : TaskExecution)
    → (apply_all updates row).max_retries ≡ row.max_retries
unfolding apply_all apply_status
max_kept [] row = refl
max_kept (u ∷ updates) row = max_kept updates (apply_status u.status u.given u.now row)

budget_before :
    (updates : List Update) (row : TaskExecution) → InBudget (apply_all updates row) → InBudget row
budget_before updates row h = omega (arith, grows updates row, max_kept updates row, h)

start_step :
    (started_at : Option ℕ) (now : ℕ)
    → or_else started_at (some now) ≡ (if true && is_none started_at then some now else started_at)
start_step none now = refl
start_step (some t) now = refl

-- An update to a status of the hooks is a transition.
update-Step :
    (status : TaskStatus) (given : StatusFields) (now : ℕ) (row : TaskExecution)
    → is_hook_status status ≡ true
    → InBudget (apply_status status given now row)
    → Step (life row) (life (apply_status status given now row))
unfolding apply_status is_terminal
update-Step running given now row s h = rw (← start_step row.started_at now) (start (life row) now)
update-Step retrying given now row s h = retry (life row) (omega (arith, h))
update-Step completed given now row s h = succeed (life row) now
update-Step failed given now row s h = fail (life row) now
update-Step pending given now row s h = cc
update-Step queued given now row s h = cc
update-Step cancelled given now row s h = cc
update-Step partial given now row s h = cc

history-Steps :
    (updates : List Update) (row : TaskExecution)
    → AreHookUpdates updates
    → InBudget (apply_all updates row)
    → Steps (life row) (life (apply_all updates row))
unfolding apply_all
history-Steps [] row s h = here
history-Steps (u ∷ updates) row s h =
    next (update-Step u.status u.given u.now row s.0 (budget_before updates _ h))
      (history-Steps updates _ s.1 h)

rows-Lives :
    (base now : List TaskExecution)
    → Evolve base now
    → All InBudget now
    → Lives (map life base) (map life now)
rows-Lives [] [] e h = tt
rows-Lives [] (b ∷ now) e h = absurd e
rows-Lives (a ∷ base) [] e h = absurd e
rows-Lives (a ∷ base) (b ∷ now) e h = (
  (let made = e.0 in
      rw made.history (history-Steps made.updates a made.by_hooks (rw (← made.history) h.0))),
  rows-Lives base now e.1 h.1,
)

-- Whatever hooks run, in whatever order, and however each call of the database, of the broker and of
-- Socket.IO ends: if every committed row had `retry_count ≤ max_retries`, then the committed rows
-- afterwards are, one by one and in their order, the rows of before after a number of transitions of
-- the specification.
pub run_hooks-Refines :
    (env : Env) (tenacity : Tenacity World) (hooks : List Hook) (w : World)
    → All InBudget w.committed.executions
    → Lives
        (map life w.committed.executions)
        (map life (run_hooks env tenacity hooks w).committed.executions)
run_hooks-Refines env tenacity hooks w h =
    let sound = run_hooks-IsSound env tenacity hooks w h in
    rows-Lives _ _ sound.evolved sound.budget

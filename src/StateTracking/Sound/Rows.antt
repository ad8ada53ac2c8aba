-- ===== src/StateTracking/Sound/Rows.antt =====
-- The invariant of the tables, and the writes that keep it.
use worker_template.Prelude.{
  ℕ, ◌≤◌, ◌<◌, String, ◌≡◌, refl, sym, ap, ◌∙◌, ◌⊎◌, inl, inr, Bool, true, Option, List, [], ◌∷◌,
  ◌++◌, map, ◌==◌, All, All-append, false, Bool-cases,
}
use worker_template.Models.{
  Uuid, TaskStatus, running, retrying, completed, failed, dispatched, TaskExecution, TaskAttempt,
  Tables,
}
use worker_template.Services.TaskExecutionService.{apply_status, write_execution}
use worker_template.Services.TaskExecutionService.Updates.{Update, apply_all, apply_all-append}

-- The retries that were started are within the budget of the row.
abbrev pub InBudget : TaskExecution → Type 0
InBudget row = row.retry_count ≤ row.max_retries

-- One more retry is within the budget.
abbrev pub HasRoom : Uuid → TaskExecution → Type 0
HasRoom id row = (row.id == id) ≡ true → row.retry_count < row.max_retries

-- The columns of a row that no status update writes.
abbrev pub identity :
    TaskExecution → Uuid × ℕ × ℕ × String × Option ℕ × Uuid × Option Uuid × Option String × ℕ
identity row = (
  row.id, row.created_at, row.updated_at, row.task_name, row.total_steps, row.tenant_id,
  row.parent_task_id, row.config_snapshot, row.max_retries,
)

-- The columns of an audit row other than `dispatch_result`.
abbrev pub audit :
    TaskAttempt → Uuid × ℕ × ℕ × Uuid × Uuid × ℕ × TaskStatus × TaskStatus × Option String
audit row = (
  row.id, row.created_at, row.updated_at, row.task_execution_id, row.tenant_id, row.attempt_number,
  row.status_before, row.status_after, row.error_detail,
)

abbrev pub SameAudit : TaskAttempt → TaskAttempt → Type 0
SameAudit old new =
    (audit new ≡ audit old)
    × ((new.dispatch_result ≡ old.dispatch_result) ⊎ (new.dispatch_result ≡ dispatched))

abbrev pub IsNumbered : TaskAttempt → Type 0
IsNumbered row = 1 ≤ row.attempt_number

-- The old rows are all there, in their order, and differ at most in that a dispatch was recorded;
-- the new rows stand behind them.
abbrev pub Grows : List TaskAttempt → List TaskAttempt → Type 0
Grows [] new = All IsNumbered new
Grows (a ∷ old) [] = ⊥
Grows (a ∷ old) (b ∷ new) = SameAudit a b × Grows old new

-- The statuses that hooks give to a task.
abbrev pub is_hook_status : TaskStatus → Bool
is_hook_status running = true
is_hook_status retrying = true
is_hook_status completed = true
is_hook_status failed = true
is_hook_status _ = false

abbrev pub AreHookUpdates : List Update → Type 0
AreHookUpdates updates = All (λ u. is_hook_status u.status ≡ true) updates

-- The new row is what some status updates have made of the old one.
pub record Evolved (old new : TaskExecution) : Type 0 where
  pub updates : List Update
  pub by_hooks : AreHookUpdates updates
  pub history : new ≡ apply_all updates old

abbrev pub Evolve : List TaskExecution → List TaskExecution → Type 0
Evolve [] [] = Unit
Evolve [] (b ∷ now) = ⊥
Evolve (a ∷ base) [] = ⊥
Evolve (a ∷ base) (b ∷ now) = Evolved a b × Evolve base now

pub record IsSound (base now : Tables) : Type 0 where
  pub budget : All InBudget now.executions
  pub evolved : Evolve base.executions now.executions
  pub same_rows : map identity now.executions ≡ map identity base.executions
  pub audited : Grows base.attempts now.attempts

pub Grows-refl : (rows : List TaskAttempt) → Grows rows rows
Grows-refl [] = tt
Grows-refl (row ∷ rows) = ((refl, inl refl), Grows-refl rows)

Evolve-refl : (rows : List TaskExecution) → Evolve rows rows
unfolding apply_all
Evolve-refl [] = tt
Evolve-refl (row ∷ rows) =
    (record { updates = []; by_hooks = tt; history = refl }, Evolve-refl rows)

-- One more update.
Evolved-update :
    {old new : TaskExecution} (u : Update)
    → is_hook_status u.status ≡ true
    → Evolved old new
    → Evolved old (apply_status u.status u.given u.now new)
Evolved-update {old} u s h = record {
  updates = h.updates ++ u ∷ [];
  by_hooks = All-append _ h.updates (u ∷ []) h.by_hooks (s, tt);
  history =
      ap (apply_status u.status u.given u.now) h.history ∙ sym (apply_all-append u h.updates old);
}

-- The row that is updated stands in the place of the one that was found.
pub Evolve-write :
    (id : Uuid) (u : Update) (task : TaskExecution) (base rows : List TaskExecution)
    → is_hook_status u.status ≡ true
    → (apply_status u.status u.given u.now task).id ≡ id
    → All (λ row. (row.id == id) ≡ true → row ≡ task) rows
    → Evolve base rows
    → Evolve base (write_execution (apply_status u.status u.given u.now task) rows)
unfolding write_execution
Evolve-write id u task [] [] s e only h = tt
Evolve-write id u task [] (b ∷ rows) s e only h = absurd h
Evolve-write id u task (a ∷ base) [] s e only h = absurd h
Evolve-write id u task (a ∷ base) (b ∷ rows) s e only h =
    let rest = Evolve-write id u task base rows s e only.1 h.1 in
    elim (Bool-cases (b.id == (apply_status u.status u.given u.now task).id)) [
      | inl same ↦ rw same (rw (only.0 (rw e at same)) at (Evolved-update u s h.0), rest)
      | inr other ↦ rw other (h.0, rest)
    ]

pub IsSound-refl : (t : Tables) → All InBudget t.executions → IsSound t t
IsSound-refl t h = record {
  budget = h;
  evolved = Evolve-refl t.executions;
  same_rows = refl;
  audited = Grows-refl t.attempts;
}

-- ===== src/StateTracking/Sound/Services.antt =====
-- The invariant, over the services inside a session.
use worker_template.Prelude.{
  ℕ, ◌<◌, ◌≡◌, ◌∙◌, true, Option, none, some, List, [], ◌∷◌, arith, ◌==◌, filter, All,
}
use worker_template.Exec.{ok}
use worker_template.Exec.Holds.{Holds, Holds-bind, Holds-pure, Holds-lift, Holds-mono}
use worker_template.Models.{Uuid, TaskStatus, retrying, TaskExecution, Tables}
use worker_template.World.{Env, World, flush}
use worker_template.Services.TaskExecutionService.{
  scalar_one_or_none, is_selected, StatusFields, apply_status, write_execution, get_task_execution,
  store_status, update_task_status,
}
use worker_template.StateTracking.Sound.Rows.{
  InBudget, HasRoom, is_hook_status, Evolve-write, identity, IsSound,
}
use worker_template.StateTracking.Sound.Writes.{
  All-found, filter-single, write-budget, write-identity, identity-apply_status,
  budget-apply_status,
}
use worker_template.StateTracking.Sound.Calls.{
  Stable, Holds-effect, Holds-execute, Holds-refresh, Holds-reading,
}

-- What `get_task_execution` has found.
abbrev pub Found : Uuid → Option TaskExecution → World → Type 0
Found id found w = scalar_one_or_none (filter (is_selected id none) w.tables.executions) ≡ ok found

abbrev pub Room : Uuid → World → Type 0
Room id w = All (HasRoom id) w.tables.executions

pub one_row :
    {A : Type 0} (rows : List A) (x : A) → scalar_one_or_none rows ≡ ok (some x) → rows ≡ x ∷ []
one_row [] x e = cc
one_row (y ∷ []) x e = ground arith
one_row (y ∷ z ∷ rest) x e = cc

pub Holds-get_task_execution :
    {P : World → Type 0} (id : Uuid)
    → Stable P
    → Holds P (get_task_execution id none) (λ found w. P w × Found id found w) P
unfolding get_task_execution
Holds-get_task_execution {P} id stable =
    Holds-bind _ _
      (Holds-execute stable (λ w h. h) (λ t. filter (is_selected id none) t.executions))
      (λ rows.
        Holds-lift (scalar_one_or_none rows) (λ found e w h. (h.0, rw (← h.1) e)) (λ w h. h.0))

module _ (base : Tables) where
  -- The invariant of what is committed and of what the session sees.
  abbrev pub Inside : World → Type 0
  Inside w = IsSound base w.committed × IsSound base w.tables

  -- The row that was found is in the budget, and has room for a retry if its rows have.
  found-budget :
      (id : Uuid) (t : Tables) (task : TaskExecution)
      → IsSound base t
      → filter (is_selected id none) t.executions ≡ task ∷ []
      → InBudget task × (task.id ≡ id)
  found-budget id t task h e =
      let found : InBudget task × ((task.id == id) ≡ true) =
        All-found (is_selected id none) InBudget t.executions task [] e h.budget in
      (found.0, ground arith)

  found-room :
      (id : Uuid) (t : Tables) (task : TaskExecution)
      → filter (is_selected id none) t.executions ≡ task ∷ []
      → All (HasRoom id) t.executions
      → task.retry_count < task.max_retries
  found-room id t task e room =
      let found : HasRoom id task × ((task.id == id) ≡ true) =
        All-found (is_selected id none) (HasRoom id) t.executions task [] e room in
      found.0 found.1

  same_identity :
      (id : Uuid) (task changed : TaskExecution) (rows : List TaskExecution)
      → changed.id ≡ id
      → identity changed ≡ identity task
      → All (λ row. (row.id == id) ≡ true → row ≡ task) rows
      → All (λ row. (row.id == changed.id) ≡ true → identity row ≡ identity changed) rows
  same_identity id task changed [] e same h = tt
  same_identity id task changed (row ∷ rows) e same h =
      (λ p. cc (h.0 (rw e at p), same), same_identity id task changed rows e same h.1)

  IsSound-write :
      (id : Uuid) (status : TaskStatus) (given : StatusFields) (now : ℕ) (t : Tables)
      (task : TaskExecution)
      → IsSound base t
      → is_hook_status status ≡ true
      → (status ≡ retrying → All (HasRoom id) t.executions)
      → filter (is_selected id none) t.executions ≡ task ∷ []
      → IsSound base (record t {
        executions = write_execution (apply_status status given now task) t.executions;
      })
  IsSound-write id status given now t task h hook room e = record {
    budget =
        write-budget (apply_status status given now task) t.executions
          (budget-apply_status status given now task (found-budget id t task h e).0
            (λ p. found-room id t task e (room p)))
          h.budget;
    evolved =
        Evolve-write id (record { status = status; given = given; now = now }) task base.executions
          t.executions hook changed_id (filter-single (is_selected id none) t.executions task e)
          h.evolved;
    same_rows =
        write-identity (apply_status status given now task) t.executions rows_agree ∙ h.same_rows;
    audited = h.audited;
  }
    where
      changed_id : (apply_status status given now task).id ≡ id
      changed_id = cc (identity-apply_status status given now task, (found-budget id t task h e).1)

      rows_agree :
          All
            (λ row.
              (row.id == (apply_status status given now task).id) ≡ true
              → identity row ≡ identity (apply_status status given now task))
            t.executions
      rows_agree =
          same_identity id task (apply_status status given now task) t.executions changed_id
            (identity-apply_status status given now task)
            (filter-single (is_selected id none) t.executions task e)

  store_status-Inside :
      (env : Env) (id : Uuid) (status : TaskStatus) (given : StatusFields)
      (found : Option TaskExecution)
      → is_hook_status status ≡ true
      → Holds
          (λ w. Inside w × (status ≡ retrying → Room id w) × Found id found w)
          (store_status env status given found)
          (λ _. Inside)
          Inside
  unfolding store_status flush
  store_status-Inside env id status given none hook = Holds-pure none (λ w h. h.0)
  store_status-Inside env id status given (some task) hook =
      Holds-bind _ _ (Holds-reading (λ w h. h)) λ tick.
        Holds-bind _ _
          (Holds-effect {Q = λ _. Inside} _
            (λ w rest h. (
              h.0.0,
              IsSound-write id status given (env.now tick) w.tables task h.0.1 hook h.1
                  (one_row _ task h.2),
            ))
            (λ w rest h. h.0)
            (λ w rest h. (
              h.0.0,
              IsSound-write id status given (env.now tick) w.tables task h.0.1 hook h.1
                  (one_row _ task h.2),
            )))
          λ _.
            Holds-bind _ _ (Holds-refresh (λ w rest h. h) (λ w h. h)) (λ _. Holds-pure _ (λ w h. h))

  -- A status update keeps the invariant; one to RETRYING wants room for the retry.
  pub update_task_status-Inside :
      (env : Env) (id : Uuid) (status : TaskStatus) (given : StatusFields)
      → is_hook_status status ≡ true
      → Holds
          (λ w. Inside w × (status ≡ retrying → Room id w))
          (update_task_status env id status given)
          (λ _. Inside)
          Inside
  unfolding update_task_status
  update_task_status-Inside env id status given hook =
      Holds-bind _ _
        (Holds-mono (get_task_execution id none)
          (Holds-get_task_execution {P = λ w. Inside w × (status ≡ retrying → Room id w)} id
            (λ w rest h. h))
          (λ w h. h) (λ found w h. (h.0.0, h.0.1, h.1)) (λ w h. h.0))
        (λ found. store_status-Inside env id status given found hook)

  -- The invariant, with room for one more retry.
  abbrev pub Roomy : Uuid → World → Type 0
  Roomy id w = Inside w × Room id w

-- ===== src/StateTracking/Sound/Writes.antt =====
-- The writes that keep the invariant of the tables.
use worker_template.Prelude.{
  ℕ, ◌<◌, ◌≡◌, refl, inl, inr, Bool, true, List, [], ◌∷◌, ◌++◌, map, arith, ◌==◌, filter, All,
  Bool-cases,
}
use worker_template.Models.{Uuid, TaskStatus, retrying, dispatched, TaskExecution, TaskAttempt}
use worker_template.Services.TaskExecutionService.{StatusFields, apply_status, write_execution}
use worker_template.Services.TaskAttemptService.{set_dispatched}
use worker_template.StateTracking.Sound.Rows.{InBudget, identity, SameAudit, IsNumbered, Grows}

module _ {A : Type 0} (p : A → Bool) where
  -- A row that a query found satisfies what all rows satisfy, and passes the query's test.
  pub All-found :
      (P : A → Type 0) (rows : List A) (x : A) (rest : List A)
      → filter p rows ≡ x ∷ rest
      → All P rows
      → P x × (p x ≡ true)
  All-found P [] x rest e h = cc
  All-found P (r ∷ rows) x rest e h = elim (Bool-cases (p r)) [
    | inl passed ↦ let found : r ≡ x = ground arith in (rw (← found) h.0, rw (← found) passed)
    | inr other ↦ All-found P rows x rest (rw other at e) h.1
  ]

  pub filter-nil : (rows : List A) → filter p rows ≡ [] → All (λ r. p r ≡ true → ⊥) rows
  filter-nil [] e = tt
  filter-nil (r ∷ rows) e = elim (Bool-cases (p r)) [
    | inl passed ↦ absurd (ground arith)
    | inr other ↦ (ground arith, filter-nil rows (rw other at e))
  ]

  pub All-absent :
      (P : A → Type 0) (rows : List A)
      → All (λ r. p r ≡ true → ⊥) rows
      → All (λ r. p r ≡ true → P r) rows
  All-absent P [] h = tt
  All-absent P (r ∷ rows) h = (λ e. absurd (h.0 e), All-absent P rows h.1)

  -- Where a query finds one row, no other row passes its test.
  pub filter-single :
      (rows : List A) (x : A) → filter p rows ≡ x ∷ [] → All (λ r. p r ≡ true → r ≡ x) rows
  filter-single [] x e = cc
  filter-single (r ∷ rows) x e = elim (Bool-cases (p r)) [
    | inl passed ↦
        let found : r ≡ x = ground arith in
        let none_left : filter p rows ≡ [] = ground arith in
        (λ _. found, All-absent (λ y. y ≡ x) rows (filter-nil rows none_left))
    | inr other ↦ (ground arith, filter-single rows x (rw other at e))
  ]

-- A row that takes the place of those with its id keeps the budget of all.
pub write-budget :
    (task : TaskExecution) (rows : List TaskExecution)
    → InBudget task
    → All InBudget rows
    → All InBudget (write_execution task rows)
unfolding write_execution
write-budget task [] h hs = tt
write-budget task (row ∷ rows) h hs = ground (arith, write-budget task rows h hs.1)

pub write-identity :
    (task : TaskExecution) (rows : List TaskExecution)
    → All (λ row. (row.id == task.id) ≡ true → identity row ≡ identity task) rows
    → map identity (write_execution task rows) ≡ map identity rows
unfolding write_execution
write-identity task [] h = refl
write-identity task (row ∷ rows) h = elim (Bool-cases (row.id == task.id)) [
  | inl same ↦ rw same (cc (h.0 same, write-identity task rows h.1))
  | inr other ↦ rw other (cc (write-identity task rows h.1))
]

pub identity-apply_status :
    (status : TaskStatus) (given : StatusFields) (now : ℕ) (task : TaskExecution)
    → identity (apply_status status given now task) ≡ identity task
unfolding apply_status
identity-apply_status status given now task = refl

pub budget-apply_status :
    (status : TaskStatus) (given : StatusFields) (now : ℕ) (task : TaskExecution)
    → InBudget task
    → (status ≡ retrying → task.retry_count < task.max_retries)
    → InBudget (apply_status status given now task)
unfolding apply_status
budget-apply_status retrying given now task h room = ground (arith, room refl)
budget-apply_status _ given now task h room = h

pub Grows-append :
    (base rows : List TaskAttempt) (row : TaskAttempt)
    → Grows base rows
    → IsNumbered row
    → Grows base (rows ++ row ∷ [])
Grows-append [] [] row h n = (n, tt)
Grows-append [] (b ∷ rows) row h n = (h.0, Grows-append [] rows row h.1 n)
Grows-append (a ∷ base) [] row h n = absurd h
Grows-append (a ∷ base) (b ∷ rows) row h n = (h.0, Grows-append base rows row h.1 n)

SameAudit-dispatched :
    (a b : TaskAttempt) → SameAudit a b → SameAudit a (record b { dispatch_result = dispatched })
SameAudit-dispatched a b h = (h.0, inr refl)

pub Grows-set_dispatched :
    (id : Uuid) (base rows : List TaskAttempt)
    → Grows base rows
    → Grows base (set_dispatched id rows)
unfolding set_dispatched
Grows-set_dispatched id [] [] h = tt
Grows-set_dispatched id [] (b ∷ rows) h = elim (Bool-cases (b.id == id)) [
  | inl same ↦ rw same (h.0, Grows-set_dispatched id [] rows h.1)
  | inr other ↦ rw other (h.0, Grows-set_dispatched id [] rows h.1)
]
Grows-set_dispatched id (a ∷ base) [] h = absurd h
Grows-set_dispatched id (a ∷ base) (b ∷ rows) h = elim (Bool-cases (b.id == id)) [
  | inl same ↦ rw same (SameAudit-dispatched a b h.0, Grows-set_dispatched id base rows h.1)
  | inr other ↦ rw other (h.0, Grows-set_dispatched id base rows h.1)
]

-- ===== src/StateTracking/Drive/Attempts.antt =====
-- The audit rows of a task once its retry is dispatched.
use worker_template.Prelude.{
  ℕ, ◌+◌, ◌≤◌, ◌≡◌, refl, true, List, [], ◌∷◌, ◌++◌, arith, ◌==◌, filter, All, All-append,
  Bool-cases, ==-refl, inl, inr,
}
use worker_template.Models.{Uuid, TaskAttempt, is_pending}
use worker_template.Services.TaskAttemptService.{
  is_open_attempt, is_pending_attempt, set_dispatched,
}

-- The attempts of the task have the numbers up to `n`.
abbrev pub AreUpTo : Uuid → ℕ → List TaskAttempt → Type 0
AreUpTo id n rows = All (λ row. (row.task_execution_id == id) ≡ true → row.attempt_number ≤ n) rows

pub open-AreUpTo :
    (id : Uuid) (n : ℕ) (rows : List TaskAttempt)
    → AreUpTo id n rows
    → filter (is_open_attempt id (n + 1)) rows ≡ []
open-AreUpTo id n [] h = refl
open-AreUpTo id n (row ∷ rows) h = ground (arith, h.0, open-AreUpTo id n rows h.1)

AreUpTo-more :
    (id : Uuid) (n : ℕ) (rows : List TaskAttempt) → AreUpTo id n rows → AreUpTo id (n + 1) rows
AreUpTo-more id n [] h = tt
AreUpTo-more id n (row ∷ rows) h = (λ same. omega (arith, h.0 same), AreUpTo-more id n rows h.1)

AreUpTo-dispatched :
    (k id : Uuid) (n : ℕ) (rows : List TaskAttempt)
    → AreUpTo id n rows
    → AreUpTo id n (set_dispatched k rows)
unfolding set_dispatched
AreUpTo-dispatched k id n [] h = tt
AreUpTo-dispatched k id n (row ∷ rows) h = elim (Bool-cases (row.id == k)) [
  | inl same ↦ rw same (h.0, AreUpTo-dispatched k id n rows h.1)
  | inr other ↦ rw other (h.0, AreUpTo-dispatched k id n rows h.1)
]

-- One more attempt, which is then marked.
pub AreUpTo-recorded :
    (k id : Uuid) (n : ℕ) (rows : List TaskAttempt) (row : TaskAttempt)
    → AreUpTo id n rows
    → row.attempt_number ≡ n + 1
    → AreUpTo id (n + 1) (set_dispatched k (rows ++ row ∷ []))
AreUpTo-recorded k id n rows row h e =
    AreUpTo-dispatched k id (n + 1) (rows ++ row ∷ [])
      (All-append _ rows (row ∷ []) (AreUpTo-more id n rows h) (λ same. omega (arith, e), tt))

pending_tail :
    (id : Uuid) (row : TaskAttempt) (rows : List TaskAttempt)
    → filter (is_pending_attempt id) (row ∷ rows) ≡ []
    → filter (is_pending_attempt id) rows ≡ []
pending_tail id row rows h = ground arith

-- Once the new row is marked no row is pending.
pub settled-recorded :
    (id : Uuid) (rows : List TaskAttempt) (row : TaskAttempt)
    → filter (is_pending_attempt id) rows ≡ []
    → filter (is_pending_attempt id) (set_dispatched row.id (rows ++ row ∷ [])) ≡ []
unfolding set_dispatched is_pending
settled-recorded id [] row h = ground (arith, ==-refl row.id)
settled-recorded id (old ∷ rows) row h =
    ground (arith, settled-recorded id rows row (pending_tail id old rows h))

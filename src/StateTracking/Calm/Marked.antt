-- ===== src/StateTracking/Calm/Marked.antt =====
-- Audit rows that are found and marked, where every call succeeds.
use worker_template.Prelude.{
  ℕ, ◌≡◌, refl, inl, inr, Bool, true, false, ◌||◌, Option, none, some, List, [], ◌∷◌, ◌++◌, arith,
  ltb, filter, ap, ◌∙◌, All, All-filter, Bool-cases, ==-refl,
}
use worker_template.Exec.{Result, ok, pure, ◌>>=◌}
use worker_template.Models.{Uuid, TaskAttempt, is_pending, is_open}
use worker_template.World.{World, effect, flush}
use worker_template.Services.TaskAttemptService.{
  later, latest, is_open_attempt, is_pending_attempt, set_dispatched, mark_found,
  mark_task_attempt_dispatched,
}
use worker_template.StateTracking.Calm.Services.{calm, get_task_attempt_dispatch_state-calm}

-- Whether a row passes the test.
abbrev pub has_row : (TaskAttempt → Bool) → List TaskAttempt → Bool
has_row p [] = false
has_row p (row ∷ rows) = let rest = has_row p rows in p row || rest

abbrev passes : (TaskAttempt → Bool) → Option TaskAttempt → Bool
passes q none = false
passes q (some row) = q row

later_either :
    (q : TaskAttempt → Bool) (row : TaskAttempt) (o : Option TaskAttempt)
    → q (later row o) ≡ true
    → (q row || passes q o) ≡ true
later_either q row none h = ground arith
later_either q row (some other) h = elim (Bool-cases (ltb row.created_at other.created_at)) [
  | inl before ↦ ground arith
  | inr after ↦ ground arith
]

-- The latest of some rows is one of them.
latest-has_row :
    (q : TaskAttempt → Bool) (rows : List TaskAttempt)
    → passes q (latest rows) ≡ true
    → has_row q rows ≡ true
unfolding latest
latest-has_row q [] h = cc
latest-has_row q (row ∷ rows) h =
    ground (arith, later_either q row (latest rows) h, latest-has_row q rows)

filter-has_row :
    (p q : TaskAttempt → Bool) (rows : List TaskAttempt)
    → has_row q (filter p rows) ≡ true
    → has_row q rows ≡ true
filter-has_row p q [] h = h
filter-has_row p q (row ∷ rows) h = ground (arith, filter-has_row p q rows)

-- A row that is there is found.
latest_found :
    (p : TaskAttempt → Bool) (rows : List TaskAttempt)
    → has_row p rows ≡ true
    → (row : TaskAttempt) × (latest (filter p rows) ≡ some row)
unfolding latest
latest_found p [] h = cc
latest_found p (row ∷ rows) h = elim (Bool-cases (p row)) [
  | inl passed ↦ rw passed (_, refl)
  | inr other ↦ rw other (latest_found p rows (rw other at h))
]

pub append-has_row :
    (p : TaskAttempt → Bool) (rows : List TaskAttempt) (row : TaskAttempt)
    → p row ≡ true
    → has_row p (rows ++ row ∷ []) ≡ true
append-has_row p [] row h = ground arith
append-has_row p (first ∷ rows) row h = ground (arith, append-has_row p rows row h)

abbrev InOption : (TaskAttempt → Type 0) → Option TaskAttempt → Type 0
InOption P none = Unit
InOption P (some row) = P row

later-InOption :
    (P : TaskAttempt → Type 0) (row : TaskAttempt) (o : Option TaskAttempt)
    → P row
    → InOption P o
    → P (later row o)
later-InOption P row none h k = h
later-InOption P row (some other) h k = elim (Bool-cases (ltb row.created_at other.created_at)) [
  | inl before ↦ rw before k
  | inr after ↦ rw after h
]

latest-InOption :
    (P : TaskAttempt → Type 0) (rows : List TaskAttempt) → All P rows → InOption P (latest rows)
unfolding latest
latest-InOption P [] h = tt
latest-InOption P (row ∷ rows) h =
    later-InOption P row (latest rows) h.0 (latest-InOption P rows h.1)

pending-open :
    (id : Uuid) (row : TaskAttempt)
    → is_pending_attempt id row ≡ true
    → is_open_attempt id row.attempt_number row ≡ true
unfolding is_pending is_open
pending-open id row h = ground (arith, ==-refl row.attempt_number)

-- A row found as pending is found again by its number.
pub pending-has_row :
    (id : Uuid) (rows : List TaskAttempt) (row : TaskAttempt)
    → latest (filter (is_pending_attempt id) rows) ≡ some row
    → has_row (is_open_attempt id row.attempt_number) rows ≡ true
pending-has_row id rows row e =
    let is_pending_row : is_pending_attempt id row ≡ true = rw e at (
      latest-InOption (λ r. is_pending_attempt id r ≡ true) _
        (All-filter (is_pending_attempt id) rows)) in
    filter-has_row (is_pending_attempt id) (is_open_attempt id row.attempt_number) rows (
      latest-has_row (is_open_attempt id row.attempt_number) _ (
        ap (passes (is_open_attempt id row.attempt_number)) e ∙ pending-open id row is_pending_row))

-- What marking leaves: only audit rows are changed.
pub record IsMarked (marked : Result Bool × World) (w : World) : Type 0 where
  pub attempts : List TaskAttempt
  pub whole :
      marked ≡ (ok true, calm (record w { tables = record w.tables { attempts = attempts } }))

found-IsMarked :
    (row : TaskAttempt) (w : World) (pending : Bool)
    → is_pending row.dispatch_result ≡ pending
    → IsMarked (mark_found (some row) (calm w)) w
unfolding mark_found flush effect pure ◌>>=◌
found-IsMarked row w true e = record {
  attempts = set_dispatched row.id w.tables.attempts;
  whole = rw e refl;
}
found-IsMarked row w false e = record { attempts = w.tables.attempts; whole = rw e refl }

pub mark_task_attempt_dispatched-IsMarked :
    (id : Uuid) (number : ℕ) (w : World)
    → has_row (is_open_attempt id number) w.tables.attempts ≡ true
    → IsMarked (mark_task_attempt_dispatched id number (calm w)) w
unfolding mark_task_attempt_dispatched ◌>>=◌
mark_task_attempt_dispatched-IsMarked id number w h =
    let (row, found) = latest_found (is_open_attempt id number) w.tables.attempts h in
    rw (get_task_attempt_dispatch_state-calm id number w)
      (rw found (found-IsMarked row w (is_pending row.dispatch_result) refl))

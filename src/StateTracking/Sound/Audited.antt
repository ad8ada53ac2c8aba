-- ===== src/StateTracking/Sound/Audited.antt =====
-- The invariant, over the audit rows that are marked and recorded.
use worker_template.Prelude.{ℕ, ◌≤◌, true, false, Option, none, some, [], ◌∷◌, ◌++◌}
use worker_template.Exec.Holds.{Holds, Holds-bind, Holds-pure, Holds-if, Holds-mono}
use worker_template.Models.{Uuid, TaskAttempt, Tables, is_pending}
use worker_template.World.{Env, World, flush}
use worker_template.Services.TaskAttemptService.{
  set_dispatched, get_task_attempt_dispatch_state, get_latest_pending_task_attempt, mark_found,
  mark_task_attempt_dispatched, AttemptFields, record_task_attempt,
}
use worker_template.StateTracking.Sound.Rows.{IsNumbered, IsSound}
use worker_template.StateTracking.Sound.Writes.{Grows-append, Grows-set_dispatched}
use worker_template.StateTracking.Sound.Calls.{Stable, Holds-effect, Holds-execute, Holds-reading}
use worker_template.StateTracking.Sound.Services.{Inside, Roomy}

-- `P` is kept when an audit row is marked.
abbrev pub KeptByMark : (World → Type 0) → Type 0
KeptByMark P =
    (w : World)
    → P w
    → (row : Uuid)
    → P (record w { tables = record w.tables { attempts = set_dispatched row w.tables.attempts } })

module _ {P : World → Type 0} (stable : Stable P) (marks : KeptByMark P) where
  mark_found-Keeps : (found : Option TaskAttempt) → Holds P (mark_found found) (λ _. P) P
  unfolding mark_found flush
  mark_found-Keeps none = Holds-pure false (λ w h. h)
  mark_found-Keeps (some attempt) =
      Holds-if (is_pending attempt.dispatch_result) _ _
        (λ _.
          Holds-bind _ _
            (Holds-effect {Q = λ _. P} _
              (λ w rest h. marks (record w { schedule = rest }) (stable w rest h) attempt.id) stable
              (λ w rest h. marks (record w { schedule = rest }) (stable w rest h) attempt.id))
            (λ _. Holds-pure true (λ w h. h)))
        (λ _. Holds-pure true (λ w h. h))

  pub get_task_attempt_dispatch_state-Keeps :
      (id : Uuid) (number : ℕ) → Holds P (get_task_attempt_dispatch_state id number) (λ _. P) P
  unfolding get_task_attempt_dispatch_state
  get_task_attempt_dispatch_state-Keeps id number =
      Holds-mono _ (Holds-execute {P = P} {E = P} stable (λ w h. h) _) (λ w h. h) (λ _ w h. h.0)
        (λ w h. h)

  pub get_latest_pending_task_attempt-Keeps :
      (id : Uuid) → Holds P (get_latest_pending_task_attempt id) (λ _. P) P
  unfolding get_latest_pending_task_attempt
  get_latest_pending_task_attempt-Keeps id =
      Holds-mono _ (Holds-execute {P = P} {E = P} stable (λ w h. h) _) (λ w h. h) (λ _ w h. h.0)
        (λ w h. h)

  pub mark_task_attempt_dispatched-Keeps :
      (id : Uuid) (number : ℕ) → Holds P (mark_task_attempt_dispatched id number) (λ _. P) P
  unfolding mark_task_attempt_dispatched
  mark_task_attempt_dispatched-Keeps id number =
      Holds-bind _ _ (get_task_attempt_dispatch_state-Keeps id number) mark_found-Keeps

module _ (base : Tables) where
  pub Inside-marked : KeptByMark (Inside base)
  Inside-marked w h row = (
    h.0,
    record {
      budget = h.1.budget;
      evolved = h.1.evolved;
      same_rows = h.1.same_rows;
      audited = Grows-set_dispatched row base.attempts w.tables.attempts h.1.audited;
    },
  )

  pub Roomy-marked : (id : Uuid) → KeptByMark (Roomy base id)
  Roomy-marked id w h row = (Inside-marked w h.0 row, h.1)

  IsSound-append :
      (t : Tables) (row : TaskAttempt)
      → IsSound base t
      → IsNumbered row
      → IsSound base (record t { attempts = t.attempts ++ row ∷ [] })
  IsSound-append t row h n = record {
    budget = h.budget;
    evolved = h.evolved;
    same_rows = h.same_rows;
    audited = Grows-append base.attempts t.attempts row h.audited n;
  }

  -- A new audit row with a number of at least 1 keeps the invariant.
  pub record_task_attempt-Keeps :
      (env : Env) (given : AttemptFields)
      → 1 ≤ given.attempt_number
      → Holds (Inside base) (record_task_attempt env given) (λ _. Inside base) (Inside base)
  unfolding record_task_attempt flush
  record_task_attempt-Keeps env given n = Holds-bind _ _ (Holds-reading (λ w h. h)) λ tick.
      Holds-bind _ _
        (Holds-effect {Q = λ _. Inside base} _ (λ w rest h. (h.0, IsSound-append w.tables _ h.1 n))
          (λ w rest h. h) (λ w rest h. (h.0, IsSound-append w.tables _ h.1 n)))
        (λ _. Holds-pure _ (λ w h. h))

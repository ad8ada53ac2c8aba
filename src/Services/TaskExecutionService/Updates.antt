-- ===== src/Services/TaskExecutionService/Updates.antt =====
-- What a history of status updates leaves in a row.
use worker_template.Prelude.{
  ℕ, ◌+◌, ◌≡◌, refl, ◌∙◌, Bool, true, false, Option, none, some, List, [], ◌∷◌, ◌++◌, arith, ◌&&◌,
  is_none, if◌then◌else◌,
}
use worker_template.Models.{TaskStatus, TaskExecution, running, retrying, status_eq, is_terminal}
use worker_template.Services.TaskExecutionService.{StatusFields, apply_status}

-- One call of `update_task_status`: the status, the other arguments and the instant.
pub record Update : Type 0 where
  pub status : TaskStatus
  pub given : StatusFields
  pub now : ℕ

unfoldable pub apply_all : List Update → TaskExecution → TaskExecution
apply_all [] row = row
apply_all (u ∷ updates) row = apply_all updates (apply_status u.status u.given u.now row)

pub apply_all-append :
    (u : Update) (updates : List Update) (row : TaskExecution)
    → apply_all (updates ++ u ∷ []) row
      ≡ apply_status u.status u.given u.now (apply_all updates row)
unfolding apply_all
apply_all-append u [] row = refl
apply_all-append u (v ∷ updates) row =
    apply_all-append u updates (apply_status v.status v.given v.now row)

-- How many updates were to RETRYING.
abbrev pub retries : List Update → ℕ
retries [] = 0
retries (u ∷ updates) = (if status_eq u.status retrying then 1 else 0) + retries updates

-- The instant of the first update to RUNNING.
abbrev pub first_run : List Update → Option ℕ
first_run [] = none
first_run (u ∷ updates) =
    let later = first_run updates in if status_eq u.status running then some u.now else later

-- The instant of the last update to a terminal status, or else `old`.
abbrev pub last_end : Option ℕ → List Update → Option ℕ
last_end old [] = old
last_end old (u ∷ updates) = last_end (if is_terminal u.status then some u.now else old) updates

abbrev pub last_status : TaskStatus → List Update → TaskStatus
last_status old [] = old
last_status old (u ∷ updates) = last_status u.status updates

abbrev pub or_else {ℓ} : {A : Type ℓ} → Option A → Option A → Option A
or_else none other = other
or_else (some a) other = some a

or_else-none : (o : Option ℕ) → o ≡ or_else o none
or_else-none none = refl
or_else-none (some t) = refl

apply_all-status :
    (updates : List Update) (row : TaskExecution)
    → (apply_all updates row).status ≡ last_status row.status updates
unfolding apply_all apply_status
apply_all-status [] row = refl
apply_all-status (u ∷ updates) row =
    apply_all-status updates (apply_status u.status u.given u.now row)

-- One step of the two accounts of `started_at`.
start_step :
    (b : Bool) (old : Option ℕ) (now : ℕ) (later : Option ℕ)
    → or_else (if b && is_none old then some now else old) later
      ≡ or_else old (if b then some now else later)
start_step true none now later = refl
start_step true (some t) now later = refl
start_step false old now later = refl

apply_all-started_at :
    (updates : List Update) (row : TaskExecution)
    → (apply_all updates row).started_at ≡ or_else row.started_at (first_run updates)
unfolding apply_all apply_status
apply_all-started_at [] row = or_else-none row.started_at
apply_all-started_at (u ∷ updates) row =
    apply_all-started_at updates (apply_status u.status u.given u.now row)
    ∙ start_step (status_eq u.status running) row.started_at u.now (first_run updates)

apply_all-completed_at :
    (updates : List Update) (row : TaskExecution)
    → (apply_all updates row).completed_at ≡ last_end row.completed_at updates
unfolding apply_all apply_status
apply_all-completed_at [] row = refl
apply_all-completed_at (u ∷ updates) row =
    apply_all-completed_at updates (apply_status u.status u.given u.now row)

count_step : (b : Bool) (n m : ℕ) → (if b then n + 1 else n) + m ≡ n + ((if b then 1 else 0) + m)
count_step true n m = omega arith
count_step false n m = omega arith

apply_all-retry_count :
    (updates : List Update) (row : TaskExecution)
    → (apply_all updates row).retry_count ≡ row.retry_count + retries updates
unfolding apply_all apply_status
apply_all-retry_count [] row = omega arith
apply_all-retry_count (u ∷ updates) row =
    apply_all-retry_count updates (apply_status u.status u.given u.now row)
    ∙ count_step (status_eq u.status retrying) row.retry_count (retries updates)

-- After any history of status updates a row has the last status; `started_at` is what it was, or else
-- the instant of the first update to RUNNING; `completed_at` is the instant of the last update to a
-- terminal status, or else what it was; and `retry_count` has grown by the number of updates to
-- RETRYING.
pub apply_all-history :
    (updates : List Update) (row : TaskExecution)
    → ((apply_all updates row).status ≡ last_status row.status updates)
      × ((apply_all updates row).started_at ≡ or_else row.started_at (first_run updates))
      × ((apply_all updates row).completed_at ≡ last_end row.completed_at updates)
      × ((apply_all updates row).retry_count ≡ row.retry_count + retries updates)
apply_all-history updates row = (
  apply_all-status updates row,
  apply_all-started_at updates row,
  apply_all-completed_at updates row,
  apply_all-retry_count updates row,
)

-- ===== src/StateTracking/Spec.antt =====
-- The life of a task as ARCHITECTURE.md tells it, apart from rows, sessions, brokers and events.
pub mod Refined
pub mod Later
use worker_template.Prelude.{ℕ, ◌+◌, ◌<◌, Option, some, List, [], ◌∷◌}
use worker_template.Models.{Uuid, TaskStatus, running, retrying, completed, failed, TaskExecution}
use worker_template.Services.TaskExecutionService.Updates.{or_else}

-- What the life of a task is about.
pub record Life : Type 0 where
  pub id : Uuid
  pub status : TaskStatus
  pub retry_count : ℕ
  pub max_retries : ℕ
  pub started_at : Option ℕ
  pub completed_at : Option ℕ

abbrev pub life : TaskExecution → Life
life row = record {
  id = row.id;
  status = row.status;
  retry_count = row.retry_count;
  max_retries = row.max_retries;
  started_at = row.started_at;
  completed_at = row.completed_at;
}

-- The transitions. Only the first start sets `started_at`; a retry counts, and there are at most
-- `max_retries` of them; each end sets `completed_at`.
pub data Step : Life → Life → Type 0 where
  start :
      (l : Life) (now : ℕ)
      → Step l (record l { status = running; started_at = or_else l.started_at (some now) })
  retry :
      (l : Life)
      → l.retry_count < l.max_retries
      → Step l (record l { status = retrying; retry_count = l.retry_count + 1 })
  succeed : (l : Life) (now : ℕ) → Step l (record l { status = completed; completed_at = some now })
  fail : (l : Life) (now : ℕ) → Step l (record l { status = failed; completed_at = some now })

-- Any number of transitions.
pub data Steps : Life → Life → Type 0 where
  here : {l : Life} → Steps l l
  next : {a b c : Life} → Step a b → Steps b c → Steps a c

-- Each life of the first list has led to the life in its place in the second.
abbrev pub Lives : List Life → List Life → Type 0
Lives [] [] = Unit
Lives [] (b ∷ new) = ⊥
Lives (a ∷ old) [] = ⊥
Lives (a ∷ old) (b ∷ new) = Steps a b × Lives old new

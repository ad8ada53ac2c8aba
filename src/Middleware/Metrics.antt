-- ===== src/Middleware/Metrics.antt =====
-- `MetricsMiddleware` of worker_template/middleware/metrics_mw.py, over the metrics of
-- worker_template/core/metrics.py.
pub mod Drift
use worker_template.Prelude.{
  ℕ, suc, String, Option, none, some, Bool, true, false, List, [], ◌∷◌, ◌++◌, str_eq, if◌then◌else◌,
}
use worker_template.Integer.{ℤ, sucℤ, predℤ}
use worker_template.Message.{Value, plain, Fields, end, field, lookup, TaskiqMessage}
use worker_template.StateTracking.Extract.{label}

-- The counters of the settings' environment, by task name; the gauge; and the observations of the
-- histogram, with their task names.
pub record Metrics : Type 0 where
  pub tasks_started_total : String → ℕ
  pub tasks_completed_total : String → ℕ
  pub tasks_failed_total : String → ℕ
  pub tasks_in_progress : String → ℤ
  pub task_duration_seconds : List (String × ℕ)

-- `f.labels(task_name=name)` with a new value.
abbrev pub at_label {ℓ} : {A : Type ℓ} → String → (A → A) → (String → A) → String → A
at_label name change f other = if str_eq other name then change (f other) else f other

abbrev pub task_start_time_key : String
task_start_time_key = "_metrics_start_time"

-- `d[key] = value`
unfoldable pub set_field : String → Value → Fields → Fields
set_field k v end = field k v end
set_field k v (field j x rest) =
    if str_eq k j then field j v rest else field j x (set_field k v rest)

-- `start` is `str(time.monotonic())`.
unfoldable pub metrics_pre_execute : String → TaskiqMessage → Metrics → TaskiqMessage × Metrics
metrics_pre_execute start message m = (
  record message { labels = set_field task_start_time_key (plain start) message.labels },
  record m {
    tasks_started_total = at_label message.task_name (λ n. suc n) m.tasks_started_total;
    tasks_in_progress = at_label message.task_name sucℤ m.tasks_in_progress;
  },
)

abbrev pub observe_since : (Value → ℕ) → String → Option Value → Metrics → Metrics
observe_since elapsed name none m = m
observe_since elapsed name (some start) m = record m {
  task_duration_seconds = m.task_duration_seconds ++ (name, elapsed start) ∷ [];
}

-- `elapsed start` is `time.monotonic() - float(start)`.
unfoldable pub observe_duration : (Value → ℕ) → TaskiqMessage → Metrics → Metrics
observe_duration elapsed message =
    observe_since elapsed message.task_name (label task_start_time_key message.labels)

abbrev pub leave : String → Metrics → Metrics
leave name m = record m { tasks_in_progress = at_label name predℤ m.tasks_in_progress }

abbrev pub count_failed : String → Metrics → Metrics
count_failed name m = record m {
  tasks_failed_total = at_label name (λ n. suc n) m.tasks_failed_total;
}

abbrev pub count_completed : String → Metrics → Metrics
count_completed name m = record m {
  tasks_completed_total = at_label name (λ n. suc n) m.tasks_completed_total;
}

unfoldable pub metrics_post_execute : (Value → ℕ) → TaskiqMessage → Bool → Metrics → Metrics
metrics_post_execute elapsed message is_err m =
    let left = observe_duration elapsed message (leave message.task_name m) in
    if is_err then count_failed message.task_name left else count_completed message.task_name left

unfoldable pub metrics_on_error : (Value → ℕ) → TaskiqMessage → Metrics → Metrics
metrics_on_error elapsed message m =
    observe_duration elapsed message (count_failed message.task_name (leave message.task_name m))

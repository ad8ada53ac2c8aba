-- ===== src/Migrations/Values.antt =====
-- The values of the models' enumerations in the columns that the migrations create.
use worker_template.Prelude.{
  ℕ, suc, String, ◌≡◌, refl, true, false, Bool, Option, none, some, List, [], ◌∷◌, ◌++◌, ◌&&◌,
  str_eq, leb, arith, if◌then◌else◌,
}
use worker_template.Text.{contains}
use worker_template.Models.{
  TaskStatus, queued, running, retrying, completed, failed, cancelled, partial, TaskDispatchResult,
  blocked, dispatched, dispatch_failed, shadowed,
}
use worker_template.Migrations.{Schema, ColumnType, enum, string, Column, Check, Table}
use worker_template.Migrations.Ddl.{any}
use worker_template.Migrations.RoundTrip.{IsFresh, upgrade_head, head, upgrade_head-downgrade_base}

-- The name of the member, which SQLAlchemy's `Enum` stores.
abbrev pub member_name : TaskStatus → String
member_name TaskStatus.pending = "PENDING"
member_name queued = "QUEUED"
member_name running = "RUNNING"
member_name retrying = "RETRYING"
member_name completed = "COMPLETED"
member_name failed = "FAILED"
member_name cancelled = "CANCELLED"
member_name partial = "PARTIAL"

-- `TaskDispatchResult.value`, which a text column stores.
abbrev pub dispatch_value : TaskDispatchResult → String
dispatch_value blocked = "blocked"
dispatch_value dispatched = "dispatched"
dispatch_value dispatch_failed = "dispatch_failed"
dispatch_value TaskDispatchResult.pending = "pending"
dispatch_value shadowed = "shadowed"

abbrev length_of : String → ℕ
length_of String.[] = 0
length_of (String.◌∷◌ c s) = suc (length_of s)

abbrev first_named : String → List Table → Option Table
first_named name [] = none
first_named name (t ∷ ts) =
    let rest = first_named name ts in if str_eq t.name name then some t else rest

-- Whether a value of the column's type is stored.
abbrev fits : ColumnType → String → Bool
fits (enum name labels creates) value = contains value labels
fits (string none) value = true
fits (string (some n)) value = leb (length_of value) n
fits _ value = false

abbrev fits_columns : String → List Column → String → Bool
fits_columns name [] value = false
fits_columns name (c ∷ cs) value =
    let rest = fits_columns name cs value in if str_eq c.name name then fits c.type value else rest

abbrev passes : String → List Check → String → Bool
passes name [] value = true
passes name (c ∷ cs) value =
    let rest = passes name cs value in
    (if str_eq c.column name then contains value c.values else true) && rest

abbrev fits_table : Option Table → String → String → Bool
fits_table none column value = false
fits_table (some t) column value =
    fits_columns column t.columns value && passes column t.checks value

-- Whether the column of the table takes the value.
abbrev pub accepts : Schema → String → String → String → Bool
accepts s table column value = fits_table (first_named table s.tables) column value

first_named-append :
    (name : String) (xs ys : List Table)
    → any (λ t. str_eq t.name name) xs ≡ false
    → first_named name (xs ++ ys) ≡ first_named name ys
first_named-append name [] ys h = refl
first_named-append name (x ∷ xs) ys h = ground (arith, first_named-append name xs ys)

status_fits :
    (status : TaskStatus)
    → (accepts head "task_execution" "status" (member_name status) ≡ true)
      × (accepts head "task_attempt" "status_before" (member_name status) ≡ true)
      × (accepts head "task_attempt" "status_after" (member_name status) ≡ true)
unfolding contains
status_fits TaskStatus.pending = (refl, refl, refl)
status_fits queued = (refl, refl, refl)
status_fits running = (refl, refl, refl)
status_fits retrying = (refl, refl, refl)
status_fits completed = (refl, refl, refl)
status_fits failed = (refl, refl, refl)
status_fits cancelled = (refl, refl, refl)
status_fits partial = (refl, refl, refl)

result_fits :
    (result : TaskDispatchResult)
    → accepts head "task_attempt" "dispatch_result" (dispatch_value result) ≡ true
unfolding contains
result_fits blocked = refl
result_fits dispatched = refl
result_fits dispatch_failed = refl
result_fits TaskDispatchResult.pending = refl
result_fits shadowed = refl

-- Once a schema that had none of their objects is upgraded, each of the columns `status`,
-- `status_before` and `status_after` takes every status of the models, and the column
-- `dispatch_result`, with its length and its CHECK constraint, takes every dispatch result.
pub upgrade_head-accepts :
    (base : Schema) (status : TaskStatus) (result : TaskDispatchResult)
    → IsFresh base
    → let s = (upgrade_head base).1 in
      (accepts s "task_execution" "status" (member_name status) ≡ true)
      × (accepts s "task_attempt" "status_before" (member_name status) ≡ true)
      × (accepts s "task_attempt" "status_after" (member_name status) ≡ true)
      × (accepts s "task_attempt" "dispatch_result" (dispatch_value result) ≡ true)
upgrade_head-accepts base status result h =
    let fits_status = status_fits status in
    rw (upgrade_head-downgrade_base base h).0 (
      rw (first_named-append "task_execution" base.tables head.tables h.no_executions.0) (
        rw (first_named-append "task_attempt" base.tables head.tables h.no_attempts.0)
          (fits_status.0, fits_status.1, fits_status.2, result_fits result)))

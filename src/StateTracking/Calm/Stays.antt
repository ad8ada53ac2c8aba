-- ===== src/StateTracking/Calm/Stays.antt =====
-- Actions that leave a world calm in which no call is to fail.
use worker_template.Prelude.{
  ◌≡◌, refl, Bool, true, false, Option, none, some, String, List, [], ◌∷◌, if◌then◌else◌,
}
use worker_template.Exec.{Result, ok, err, pure, lift, gets, continue, ◌>>=◌}
use worker_template.Models.{Uuid, TaskStatus, TaskExecution, Tables}
use worker_template.Message.{TaskiqMessage}
use worker_template.World.{
  Env, Outcome, World, Worker, effect, execute, flush, refresh, commit, reading, with_session,
}
use worker_template.Services.TaskExecutionService.{
  StatusFields, get_task_execution, store_status, update_task_status,
}
use worker_template.StateTracking.Events.{emit_status_event}
use worker_template.StateTracking.Emission.{emit_status_event-schedule}

pub record Stays {A : Type 0} (m : Worker A) : Type 0 where
  pub at : (w : World) → w.schedule ≡ [] → (m w).1.schedule ≡ []

module _ {A : Type 0} where
  pub Stays-pure : (a : A) → Stays (pure a)
  unfolding pure
  Stays-pure a = record { at = λ w quiet. quiet }

  pub Stays-lift : (r : Result A) → Stays (lift r)
  unfolding lift
  Stays-lift r = record { at = λ w quiet. quiet }

  pub Stays-gets : (f : World → A) → Stays (gets f)
  unfolding gets
  Stays-gets f = record { at = λ w quiet. quiet }

  pub Stays-if : (b : Bool) (m n : Worker A) → Stays m → Stays n → Stays (if b then m else n)
  Stays-if true m n hm hn = hm
  Stays-if false m n hm hn = hn

  pub Stays-with_session : (m : Worker A) → Stays m → Stays (with_session m)
  unfolding with_session
  Stays-with_session m h = record { at = λ w quiet. h.at (record w { tables = w.committed }) quiet }

module _ {A B : Type 0} where
  continue-schedule :
      (r : Result A × World) (f : A → Worker B)
      → ((a : A) → Stays (f a))
      → r.1.schedule ≡ []
      → (continue r f).1.schedule ≡ []
  continue-schedule (ok a, w) f hf quiet = (hf a).at w quiet
  continue-schedule (err e, w) f hf quiet = quiet

  pub Stays-bind :
      (m : Worker A) (f : A → Worker B) → Stays m → ((a : A) → Stays (f a)) → Stays (m >>= f)
  unfolding ◌>>=◌
  Stays-bind m f hm hf = record { at = λ w quiet. continue-schedule (m w) f hf (hm.at w quiet) }

effect-schedule :
    (f : World → World) (outcomes : List Outcome) (w : World)
    → ((v : World) → (f v).schedule ≡ v.schedule)
    → outcomes ≡ []
    → (effect f (record w { schedule = outcomes })).1.schedule ≡ []
unfolding effect
effect-schedule f [] w same quiet = same (record w { schedule = [] })
effect-schedule f (o ∷ rest) w same quiet = cc

Stays-effect : (f : World → World) → ((v : World) → (f v).schedule ≡ v.schedule) → Stays (effect f)
Stays-effect f same = record { at = λ w quiet. effect-schedule f w.schedule w same quiet }

pub Stays-reading : Stays reading
unfolding reading
Stays-reading = record { at = λ w quiet. quiet }

pub Stays-flush : (write : Tables → Tables) → Stays (flush write)
unfolding flush
Stays-flush write = Stays-effect _ (λ v. refl)

pub Stays-refresh : Stays refresh
unfolding refresh
Stays-refresh = Stays-effect _ (λ v. refl)

pub Stays-commit : Stays commit
unfolding commit
Stays-commit = Stays-effect _ (λ v. refl)

pub Stays-execute : {A : Type 0} (query : Tables → A) → Stays (execute query)
unfolding execute
Stays-execute query = Stays-bind _ _ (Stays-effect _ (λ v. refl)) (λ _. Stays-gets _)

pub ruleset stays_rules = (
  Stays-pure, Stays-lift, Stays-gets, Stays-if, Stays-bind, Stays-with_session, Stays-reading,
  Stays-flush, Stays-refresh, Stays-commit, Stays-execute,
)

get_task_execution-Stays : (id : Uuid) (tenant : Option Uuid) → Stays (get_task_execution id tenant)
unfolding get_task_execution
get_task_execution-Stays id tenant = search stays_rules

module _ (env : Env) where
  store_status-Stays :
      (status : TaskStatus) (given : StatusFields) (found : Option TaskExecution)
      → Stays (store_status env status given found)
  unfolding store_status
  store_status-Stays status given none = search stays_rules
  store_status-Stays status given (some task) = search stays_rules

  pub update_task_status-Stays :
      (id : Uuid) (status : TaskStatus) (given : StatusFields)
      → Stays (update_task_status env id status given)
  unfolding update_task_status
  update_task_status-Stays id status given =
      search (stays_rules, get_task_execution-Stays, store_status-Stays)

  pub emit_status_event-Stays :
      (message : TaskiqMessage) (status : TaskStatus) (status_message error_detail : Option String)
      → Stays (emit_status_event env message status status_message error_detail)
  emit_status_event-Stays message status status_message error_detail = record {
    at = λ w quiet.
        emit_status_event-schedule env message status status_message error_detail w quiet;
  }

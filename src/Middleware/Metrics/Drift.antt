-- ===== src/Middleware/Metrics/Drift.antt =====
-- What a history of tasks leaves in the metrics.
use worker_template.Prelude.{
  ℕ, zero, suc, ◌+◌, ◌*◌, String, ◌≡◌, refl, ap, ◌∙◌, Bool, true, false, not, ◌&&◌, Option, none,
  some, List, [], ◌∷◌, arith, str_eq, if◌then◌else◌,
}
use worker_template.Integer.{ℤ, sucℤ, predℤ, predℤ-sucℤ}
use worker_template.Message.{Value, TaskiqMessage}
use worker_template.StateTracking.Extract.{label}
use worker_template.Middleware.Metrics.{
  task_start_time_key, at_label, leave, count_failed, count_completed, Metrics, metrics_pre_execute,
  observe_since, observe_duration, metrics_post_execute, metrics_on_error,
}

-- One task: its message, whether it raises, and the readings of the clock.
pub record Run : Type 0 where
  pub message : TaskiqMessage
  pub raises : Bool
  pub start : String
  pub elapsed : Value → ℕ

-- The hooks of one task in the order of their calls: where the task raises, `on_error` comes between
-- `pre_execute` and `post_execute`.
unfoldable pub run_task : Run → Metrics → Metrics
run_task r m =
    let (message, started) = metrics_pre_execute r.start r.message m in
    metrics_post_execute r.elapsed message r.raises
      (if r.raises then metrics_on_error r.elapsed message started else started)

unfoldable pub run_tasks : List Run → Metrics → Metrics
run_tasks [] m = m
run_tasks (r ∷ runs) m = run_tasks runs (run_task r m)

abbrev one_if : Bool → ℕ
one_if true = 1
one_if false = 0

-- How many runs of the task return, and how many raise.
abbrev pub successes : String → List Run → ℕ
successes name [] = 0
successes name (r ∷ runs) =
    one_if (str_eq name r.message.task_name && not r.raises) + successes name runs

abbrev pub failures : String → List Run → ℕ
failures name [] = 0
failures name (r ∷ runs) = one_if (str_eq name r.message.task_name && r.raises) + failures name runs

-- `n` below `i`
abbrev pub fall : ℕ → ℤ → ℤ
fall zero i = i
fall (suc n) i = predℤ (fall n i)

module _ (elapsed : Value → ℕ) (name : String) where
  -- The hooks after `pre_execute`, by what the label of the start time is.
  abbrev finish : Option Value → Bool → Metrics → Metrics
  finish start raises m =
      let left = observe_since elapsed name start (
        leave name (
          if raises
          then observe_since elapsed name start (count_failed name (leave name m))
          else m)) in
      if raises then count_failed name left else count_completed name left

  finish-started :
      (start : Option Value) (raises : Bool) (m : Metrics)
      → (finish start raises m).tasks_started_total ≡ m.tasks_started_total
  finish-started none true m = refl
  finish-started none false m = refl
  finish-started (some v) true m = refl
  finish-started (some v) false m = refl

  finish-completed :
      (start : Option Value) (raises : Bool) (m : Metrics)
      → (finish start raises m).tasks_completed_total ≡ (
          if raises
          then m.tasks_completed_total
          else at_label name (λ n. suc n) m.tasks_completed_total)
  finish-completed none true m = refl
  finish-completed none false m = refl
  finish-completed (some v) true m = refl
  finish-completed (some v) false m = refl

  finish-failed :
      (start : Option Value) (raises : Bool) (m : Metrics)
      → (finish start raises m).tasks_failed_total ≡ (
          if raises
          then at_label name (λ n. suc n) (at_label name (λ n. suc n) m.tasks_failed_total)
          else m.tasks_failed_total)
  finish-failed none true m = refl
  finish-failed none false m = refl
  finish-failed (some v) true m = refl
  finish-failed (some v) false m = refl

  finish-in_progress :
      (start : Option Value) (raises : Bool) (m : Metrics)
      → (finish start raises m).tasks_in_progress ≡ (
          if raises
          then at_label name predℤ (at_label name predℤ m.tasks_in_progress)
          else at_label name predℤ m.tasks_in_progress)
  finish-in_progress none true m = refl
  finish-in_progress none false m = refl
  finish-in_progress (some v) true m = refl
  finish-in_progress (some v) false m = refl

started_by :
    (b raises : Bool) (n : ℕ)
    → (if b then suc n else n) ≡ one_if (b && not raises) + one_if (b && raises) + n
started_by true true n = omega arith
started_by true false n = omega arith
started_by false raises n = omega arith

completed_by :
    (b raises : Bool) (f : ℕ)
    → (if raises then f else (if b then suc f else f)) ≡ one_if (b && not raises) + f
completed_by true true f = omega arith
completed_by true false f = omega arith
completed_by false true f = omega arith
completed_by false false f = omega arith

failed_by :
    (b raises : Bool) (f : ℕ)
    → (if raises then (if b then suc (if b then suc f else f) else (if b then suc f else f)) else f)
      ≡ 2 * one_if (b && raises) + f
failed_by true true f = omega arith
failed_by true false f = omega arith
failed_by false true f = omega arith
failed_by false false f = omega arith

left_by :
    (b raises : Bool) (i : ℤ)
    → (let entered = if b then sucℤ i else i in
        let left = if b then predℤ entered else entered in
        if raises then (if b then predℤ left else left) else left)
      ≡ fall (one_if (b && raises)) i
left_by true true i = ap predℤ (predℤ-sucℤ i)
left_by true false i = predℤ-sucℤ i
left_by false true i = refl
left_by false false i = refl

-- What runs add, where some succeeded and some raised.
pub record Adds (name : String) (succeeded raised : ℕ) (m m' : Metrics) : Type 0 where
  pub started : m'.tasks_started_total name ≡ succeeded + raised + m.tasks_started_total name
  pub completed : m'.tasks_completed_total name ≡ succeeded + m.tasks_completed_total name
  pub failed : m'.tasks_failed_total name ≡ 2 * raised + m.tasks_failed_total name
  pub in_progress : m'.tasks_in_progress name ≡ fall raised (m.tasks_in_progress name)

if_apply :
    {A B : Type 0} (b : Bool) (f g : A → B) (x : A)
    → (if b then f else g) x ≡ (if b then f x else g x)
if_apply true f g x = refl
if_apply false f g x = refl

run_task-Adds :
    (name : String) (r : Run) (m : Metrics)
    → Adds name
        (one_if (str_eq name r.message.task_name && not r.raises))
        (one_if (str_eq name r.message.task_name && r.raises))
        m
        (run_task r m)
unfolding run_task metrics_pre_execute metrics_post_execute metrics_on_error observe_duration
run_task-Adds name r m =
    let own = r.message.task_name in
    let (message, started) = metrics_pre_execute r.start r.message m in
    let start = label task_start_time_key message.labels in
    let same = str_eq name own in
    record {
      started =
          ap (λ f. f name) (finish-started r.elapsed own start r.raises started)
          ∙ started_by same r.raises (m.tasks_started_total name);
      completed =
          ap (λ f. f name) (finish-completed r.elapsed own start r.raises started)
          ∙ if_apply r.raises _ _ name
          ∙ completed_by same r.raises (m.tasks_completed_total name);
      failed =
          ap (λ f. f name) (finish-failed r.elapsed own start r.raises started)
          ∙ if_apply r.raises _ _ name
          ∙ failed_by same r.raises (m.tasks_failed_total name);
      in_progress =
          ap (λ f. f name) (finish-in_progress r.elapsed own start r.raises started)
          ∙ if_apply r.raises _ _ name
          ∙ left_by same r.raises (m.tasks_in_progress name);
    }

fall-add : (a b : ℕ) (i : ℤ) → fall b (fall a i) ≡ fall (a + b) i
fall-add a zero i = let e : a ≡ a + 0 = omega arith in ap (λ n. fall n i) e
fall-add a (suc b) i =
    let e : suc (a + b) ≡ a + suc b = omega arith in
    ap predℤ (fall-add a b i) ∙ ap (λ n. fall n i) e

Adds-trans :
    (name : String) (s s' f f' : ℕ) (m m' m'' : Metrics)
    → Adds name s f m m'
    → Adds name s' f' m' m''
    → Adds name (s + s') (f + f') m m''
Adds-trans name s s' f f' m m' m'' h k = record {
  started = k.started ∙ ap (λ n. s' + f' + n) h.started ∙ omega arith;
  completed = k.completed ∙ ap (λ n. s' + n) h.completed ∙ omega arith;
  failed = k.failed ∙ ap (λ n. 2 * f' + n) h.failed ∙ omega arith;
  in_progress =
      k.in_progress ∙ ap (fall f') h.in_progress ∙ fall-add f f' (m.tasks_in_progress name);
}

Adds-none : (name : String) (m : Metrics) → Adds name 0 0 m m
Adds-none name m = record {
  started = omega arith;
  completed = omega arith;
  failed = omega arith;
  in_progress = refl;
}

-- After any history of tasks, each of which runs its hooks in the order of their calls: the started
-- tasks of a name grew by its runs, and the completed ones by its runs that returned; but the failed
-- ones grew by two for each run that raised, and the number of tasks in progress, which is over once
-- all runs have ended, has fallen by one for each run that raised.
pub run_tasks-Adds :
    (name : String) (runs : List Run) (m : Metrics)
    → Adds name (successes name runs) (failures name runs) m (run_tasks runs m)
unfolding run_tasks
run_tasks-Adds name [] m = Adds-none name m
run_tasks-Adds name (r ∷ runs) m =
    Adds-trans name _ (successes name runs) _ (failures name runs) m (run_task r m) _
      (run_task-Adds name r m) (run_tasks-Adds name runs (run_task r m))

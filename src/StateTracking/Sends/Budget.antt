-- ===== src/StateTracking/Sends/Budget.antt =====
-- The messages that the hooks enqueue where no call is to fail, against the retries that are left.
use mathlib.Core.Path.{subst}
use worker_template.Prelude.{
  sym, ◌+◌, ◌≤◌, ◌≡◌, refl, ap, ◌∙◌, inl, inr, List, [], ◌∷◌, map, arith, length, All,
}
use worker_template.Exec.Holds.{Post-final, Keeps}
use worker_template.Models.{TaskExecution}
use worker_template.Message.{TaskiqMessage}
use worker_template.World.{Env, World, Worker}
use worker_template.Retry.{Tenacity, db_retry}
use worker_template.Retry.Limit.{db_retry-Keeps}
use worker_template.StateTracking.Handlers.{pre_execute, post_execute, on_error}
use worker_template.StateTracking.Lifecycle.{Hook, pre, post, error, run_hook, run_hooks}
use worker_template.StateTracking.Calm.Services.{calm_eq}
use worker_template.StateTracking.Sends.Count.{Post-of_final}
use worker_template.StateTracking.Sends.Still.{IsStill, pre_body-IsStill, post_body-IsStill}
use worker_template.StateTracking.Sends.Paid.{spent, allowed, IsPaid, on_error-IsPaid}
use worker_template.StateTracking.Sound.Rows.{InBudget}
use worker_template.StateTracking.Sound.Hooks.{run_hooks-IsSound}
use worker_template.StateTracking.Spec.{life}
use worker_template.StateTracking.Spec.Later.{AreLater, run_hooks-AreLater}

-- The queue is as it was, and no call is to fail.
abbrev IsKept : List TaskiqMessage → World → Type 0
IsKept sent w = (w.sent ≡ sent) × (w.schedule ≡ [])

still-IsPaid :
    {A : Type 0} (tenacity : Tenacity World) (m : Worker A) (w : World)
    → IsStill m
    → w.schedule ≡ []
    → IsPaid w (db_retry tenacity m w).1
still-IsPaid tenacity m w h quiet =
    let keeps : Keeps (IsKept w.sent) m = record {
      at = λ v k. Post-of_final (IsKept w.sent) (m v) (h.quiet.at v ∙ k.0, h.stays.at v k.1);
    } in
    let kept =
      Post-final (IsKept w.sent) _
        ((db_retry-Keeps tenacity (IsKept w.sent) m keeps).at w (refl, quiet)) in
    (kept.1, inl kept.0)

-- No hook forgets a retry.
later-spent :
    (old new : List TaskExecution)
    → AreLater (map life old) (map life new)
    → (spent old ≤ spent new) × (allowed new ≡ allowed old)
later-spent [] [] h = (omega arith, refl)
later-spent [] (b ∷ new) h = absurd h
later-spent (a ∷ old) [] h = absurd h
later-spent (a ∷ old) (b ∷ new) h =
    let (more, same) = later-spent old new h.1 in
    (omega (arith, h.0.retry_count, more), omega (arith, h.0.max_retries, same))

spent-allowed : (rows : List TaskExecution) → All InBudget rows → spent rows ≤ allowed rows
spent-allowed [] h = omega arith
spent-allowed (row ∷ rows) h = omega (arith, h.0, spent-allowed rows h.1)

module _ (env : Env) (tenacity : Tenacity World) where
  run_hook-IsPaid :
      (hook : Hook) (w : World) → w.schedule ≡ [] → IsPaid w (run_hook env tenacity hook w)
  unfolding run_hook pre_execute post_execute
  run_hook-IsPaid (pre message) w quiet =
      still-IsPaid tenacity _ w (pre_body-IsStill env message _) quiet
  run_hook-IsPaid (post message result) w quiet =
      still-IsPaid tenacity _ (record w { result = result }) (post_body-IsStill env message _) quiet
  run_hook-IsPaid (error message result raised_error) w quiet =
      let v = record w { result = result } in
      subst (λ u. IsPaid v (on_error env tenacity message raised_error u).1) (sym (calm_eq v quiet))
        (on_error-IsPaid env tenacity message raised_error v _ refl)

  -- A message more, a retry more.
  abbrev IsCovered : World → World → Type 0
  IsCovered w w' =
      length w'.sent + spent w.committed.executions ≤ length w.sent + spent w'.committed.executions

  run_hook-IsCovered :
      (hook : Hook) (w : World)
      → All InBudget w.committed.executions
      → w.schedule ≡ []
      → ((run_hook env tenacity hook w).schedule ≡ []) × IsCovered w (run_hook env tenacity hook w)
  unfolding run_hooks
  run_hook-IsCovered hook w budget quiet =
      let (still, paid) = run_hook-IsPaid hook w quiet in
      let grown = later-spent _ _ (run_hooks-AreLater env tenacity (hook ∷ []) w budget) in
      (
        still,
        elim paid [
          | inl same ↦ omega (arith, ap length same, grown.0)
          | inr more ↦ omega (arith, more.0, more.1)
        ],
      )

  run_hooks-IsCovered :
      (hooks : List Hook) (w : World)
      → All InBudget w.committed.executions
      → w.schedule ≡ []
      → IsCovered w (run_hooks env tenacity hooks w)
  unfolding run_hooks
  run_hooks-IsCovered [] w budget quiet = omega arith
  run_hooks-IsCovered (hook ∷ hooks) w budget quiet =
      let (still, first) = run_hook-IsCovered hook w budget quiet in
      let sound = run_hooks-IsSound env tenacity (hook ∷ []) w budget in
      omega
        (arith, first, run_hooks-IsCovered hooks (run_hook env tenacity hook w) sound.budget still)

-- Where no call is to fail, any hooks in any order enqueue no more messages than the committed rows
-- come to count retries, and so no more than they had retries left, if every one of them had
-- `retry_count ≤ max_retries`.
pub run_hooks-sent :
    (env : Env) (tenacity : Tenacity World) (hooks : List Hook) (w : World)
    → All InBudget w.committed.executions
    → w.schedule ≡ []
    → let w' = run_hooks env tenacity hooks w in
      (length w'.sent + spent w.committed.executions
        ≤ length w.sent + spent w'.committed.executions)
      × (length w'.sent + spent w.committed.executions
          ≤ length w.sent + allowed w.committed.executions)
run_hooks-sent env tenacity hooks w budget quiet =
    let covered = run_hooks-IsCovered env tenacity hooks w budget quiet in
    let ends = spent-allowed _ (run_hooks-IsSound env tenacity hooks w budget).budget in
    let (_, same) = later-spent _ _ (run_hooks-AreLater env tenacity hooks w budget) in
    (covered, omega (arith, covered, ends, same))

-- ===== src/StateTracking/Spec/Later.antt =====
-- What no sequence of hooks undoes in the life of a task.
use worker_template.Prelude.{
  ℕ, ◌≤◌, ◌≡◌, refl, ◌∙◌, sym, ◌⊎◌, inl, inr, true, Option, none, some, List, [], ◌∷◌, map, arith,
  All,
}
use worker_template.World.{Env, World}
use worker_template.Retry.{Tenacity}
use worker_template.Services.TaskExecutionService.Updates.{or_else}
use worker_template.StateTracking.Lifecycle.{Hook, run_hooks}
use worker_template.StateTracking.Sound.Rows.{InBudget, is_hook_status}
use worker_template.StateTracking.Spec.{
  Life, life, Step, start, retry, succeed, fail, Steps, here, next, Lives,
}
use worker_template.StateTracking.Spec.Refined.{run_hooks-Refines}

-- The same task at a later time: it keeps its id, its maximum and the start that it has, no retry is
-- forgotten, and its status is the same or one that the hooks give.
pub record IsLater (old new : Life) : Type 0 where
  pub id : new.id ≡ old.id
  pub max_retries : new.max_retries ≡ old.max_retries
  pub started_at : (old.started_at ≡ none) ⊎ (new.started_at ≡ old.started_at)
  pub retry_count : old.retry_count ≤ new.retry_count
  pub status : (new.status ≡ old.status) ⊎ (is_hook_status new.status ≡ true)

abbrev pub AreLater : List Life → List Life → Type 0
AreLater [] [] = Unit
AreLater [] (b ∷ new) = ⊥
AreLater (a ∷ old) [] = ⊥
AreLater (a ∷ old) (b ∷ new) = IsLater a b × AreLater old new

first_start : (o : Option ℕ) (now : ℕ) → (o ≡ none) ⊎ (or_else o (some now) ≡ o)
first_start none now = inl refl
first_start (some t) now = inr refl

Step-IsLater : {a b : Life} → Step a b → IsLater a b
Step-IsLater (start l now) = record {
  id = refl;
  max_retries = refl;
  started_at = first_start l.started_at now;
  retry_count = omega arith;
  status = inr refl;
}
Step-IsLater (retry l left) = record {
  id = refl;
  max_retries = refl;
  started_at = inr refl;
  retry_count = omega arith;
  status = inr refl;
}
Step-IsLater (succeed l now) = record {
  id = refl;
  max_retries = refl;
  started_at = inr refl;
  retry_count = omega arith;
  status = inr refl;
}
Step-IsLater (fail l now) = record {
  id = refl;
  max_retries = refl;
  started_at = inr refl;
  retry_count = omega arith;
  status = inr refl;
}

kept_start : (a b c : Option ℕ) → (a ≡ none) ⊎ (b ≡ a) → (b ≡ none) ⊎ (c ≡ b) → (a ≡ none) ⊎ (c ≡ a)
kept_start a b c (inl e) h = inl e
kept_start a b c (inr e) (inl f) = inl (sym e ∙ f)
kept_start a b c (inr e) (inr f) = inr (f ∙ e)

IsLater-trans : (a b c : Life) → IsLater a b → IsLater b c → IsLater a c
IsLater-trans a b c h k = record {
  id = k.id ∙ h.id;
  max_retries = k.max_retries ∙ h.max_retries;
  started_at = kept_start a.started_at b.started_at c.started_at h.started_at k.started_at;
  retry_count = omega (arith, h.retry_count, k.retry_count);
  status = elim k.status [
    | inl same ↦ elim h.status [ inl old ↦ inl (same ∙ old) | inr given ↦ inr (rw same given) ]
    | inr given ↦ inr given
  ];
}

Steps-IsLater : {a b : Life} → Steps a b → IsLater a b
Steps-IsLater (here {l}) = record {
  id = refl;
  max_retries = refl;
  started_at = inr refl;
  retry_count = omega arith;
  status = inl refl;
}
Steps-IsLater (next {a} {b} {c} s rest) = IsLater-trans a b c (Step-IsLater s) (Steps-IsLater rest)

Lives-AreLater : (old new : List Life) → Lives old new → AreLater old new
Lives-AreLater [] [] h = tt
Lives-AreLater [] (b ∷ new) h = absurd h
Lives-AreLater (a ∷ old) [] h = absurd h
Lives-AreLater (a ∷ old) (b ∷ new) h = (Steps-IsLater h.0, Lives-AreLater old new h.1)

-- Whatever hooks run, in whatever order and under whatever faults: if every committed row had
-- `retry_count ≤ max_retries`, then every committed row keeps its id, its maximum and a `started_at`
-- that it had; `retry_count` has not fallen; and the status is the same, or it is RUNNING, RETRYING,
-- COMPLETED or FAILED.
pub run_hooks-AreLater :
    (env : Env) (tenacity : Tenacity World) (hooks : List Hook) (w : World)
    → All InBudget w.committed.executions
    → AreLater
        (map life w.committed.executions)
        (map life (run_hooks env tenacity hooks w).committed.executions)
run_hooks-AreLater env tenacity hooks w h =
    Lives-AreLater _ _ (run_hooks-Refines env tenacity hooks w h)

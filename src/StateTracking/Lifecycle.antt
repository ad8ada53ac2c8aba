-- ===== src/StateTracking/Lifecycle.antt =====
-- Sequences of hook calls on one world.
use worker_template.Prelude.{List, [], ◌∷◌}
use worker_template.Message.{TaskiqMessage, TaskiqResult, TaskException}
use worker_template.World.{Env, World}
use worker_template.Retry.{Tenacity}
use worker_template.StateTracking.Handlers.{pre_execute, post_execute, on_error}

-- A call of a hook by the receiver, with the result object that it hands over.
pub data Hook : Type 0 where
  pre : TaskiqMessage → Hook
  post : TaskiqMessage → TaskiqResult → Hook
  error : TaskiqMessage → TaskiqResult → TaskException → Hook

module _ (env : Env) (tenacity : Tenacity World) where
  -- The world after the call, whether it returned or raised.
  unfoldable pub run_hook : Hook → World → World
  run_hook (pre message) w = (pre_execute env tenacity message w).1
  run_hook (post message result) w =
      (post_execute env tenacity message (record w { result = result })).1
  run_hook (error message result raised_error) w =
      (on_error env tenacity message raised_error (record w { result = result })).1

  unfoldable pub run_hooks : List Hook → World → World
  run_hooks [] w = w
  run_hooks (hook ∷ hooks) w = run_hooks hooks (run_hook hook w)

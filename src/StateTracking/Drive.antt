-- ===== src/StateTracking/Drive.antt =====
-- The deliveries of a task, one after the other: TaskIQ's receiver, as far as the hooks rely on it,
-- and the runs of a worker that takes one message after the other.
pub mod Hooks
pub mod Calls
pub mod Attempts
pub mod Started
pub mod Delivery
pub mod LastDelivery
pub mod Completion
pub mod Ends
pub mod Completed
use worker_template.Prelude.{ℕ, zero, suc, String, ◌≡◌, true, false, none, some, List, [], ◌∷◌}
use worker_template.Exec.{ok}
use worker_template.Message.{TaskiqMessage, TaskiqResult, TaskException, raised}
use worker_template.Message.Json.{Json, received_message}
use worker_template.World.{Env, World}
use worker_template.Retry.{Tenacity}
use worker_template.StateTracking.Handlers.{pre_execute, post_execute, on_error}

-- The result object of a task that raised.
abbrev pub failed_with : TaskException → TaskiqResult
failed_with raised_error = record {
  is_err = true;
  error = some (raised raised_error.text);
  shadow_retry = false;
}

-- The result object of a task that returned.
abbrev pub returned : TaskiqResult
returned = record { is_err = false; error = none; shadow_retry = false }

-- A worker that takes one message after the other from the broker's queue, as TaskIQ documents it:
-- `step x w` delivers the first message as it arrives from JSON, with `pre_execute`, a task that raises
-- `x`, `on_error`, and `post_execute` for the same result object; with no message it waits. `finish w`
-- delivers the first message with `pre_execute`, a task that returns, and `post_execute`.
pub record Receiver (env : Env) (tenacity : Tenacity World) (json : Json env) : Type 0 where
  pub step : TaskException → World → World
  pub waits : (x : TaskException) (w : World) → w.sent ≡ [] → step x w ≡ w
  pub delivers :
      (x : TaskException) (w : World) (message message' : TaskiqMessage) (rest : List TaskiqMessage)
      (started failed ended : World)
      → w.sent ≡ message ∷ rest
      → pre_execute env tenacity (received_message json message) (record w { sent = rest })
        ≡ (ok message', started)
      → on_error env tenacity message' x (record started { result = failed_with x })
        ≡ (ok tt, failed)
      → post_execute env tenacity message' failed ≡ (ok tt, ended)
      → step x w ≡ ended
  pub finish : World → World
  pub finishes :
      (w : World) (message message' : TaskiqMessage) (rest : List TaskiqMessage)
      (started ended : World)
      → w.sent ≡ message ∷ rest
      → pre_execute env tenacity (received_message json message) (record w { sent = rest })
        ≡ (ok message', started)
      → post_execute env tenacity message' (record started { result = returned }) ≡ (ok tt, ended)
      → finish w ≡ ended

-- The queue has one message, which arrives as `message`.
pub record IsWaiting {env : Env} (json : Json env) (message : TaskiqMessage) (w : World)
    : Type 0 where
  pub queued : TaskiqMessage
  pub sent : w.sent ≡ queued ∷ []
  pub arrives : received_message json queued ≡ message

-- `n` steps of the worker, whose task raises `errors k` where `k` steps are left.
unfoldable pub drive :
    {env : Env} {tenacity : Tenacity World} {json : Json env}
    → Receiver env tenacity json
    → (ℕ → TaskException)
    → ℕ
    → World
    → World
drive receiver errors zero w = w
drive receiver errors (suc n) w = drive receiver errors n (receiver.step (errors n) w)

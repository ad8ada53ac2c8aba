-- ===== src/Tests/Receivers.antt =====
-- A worker that takes one message after the other, and a task whose message is on its queue.
use worker_template.Prelude.{some, ℕ, ◌≡◌, refl, ap, ◌∙◌, List, [], ◌∷◌}
use worker_template.Exec.{ok, modify, ◌>>=◌, ◌>>◌}
use worker_template.Message.{TaskiqMessage, TaskException}
use worker_template.Message.{lookup}
use worker_template.StateTracking.Extract.{
  parse_uuid, label, raw_entry, candidates, first_parsed, extract_task_execution_id,
}
use worker_template.Message.Json.{Json, received_message}
use worker_template.Tests.Messages.{json_value, json}
use worker_template.World.{Env, World, Worker}
use worker_template.Retry.{Tenacity}
use worker_template.StateTracking.Handlers.{pre_execute, post_execute, on_error}
use worker_template.StateTracking.Drive.{failed_with, returned, Receiver, IsWaiting}
use worker_template.StateTracking.Drive.Hooks.{IsAt}
use worker_template.Tests.Fixtures.{
  gate_open_5, retry_of, env, message, boom, task_with, other_task, world_with,
}

module _ (env : Env) (tenacity : Tenacity World) (json : Json env) where
  abbrev deliver : TaskException → TaskiqMessage → Worker (Unit {0})
  deliver x message = pre_execute env tenacity message >>= λ message'.
      modify (λ w. record w { result = failed_with x })
      >> (on_error env tenacity message' x >> post_execute env tenacity message')

  abbrev deliver_first : TaskException → List TaskiqMessage → World → World
  deliver_first x [] w = w
  deliver_first x (message ∷ rest) w =
      (deliver x (received_message json message) (record w { sent = rest })).1

  pub deliver_first-waits :
      (x : TaskException) (w : World) → w.sent ≡ [] → deliver_first x w.sent w ≡ w
  deliver_first-waits x w e = rw e refl

  deliver-returns :
      (x : TaskException) (w : World) (message message' : TaskiqMessage)
      (started raised_world ended : World)
      → pre_execute env tenacity message w ≡ (ok message', started)
      → on_error env tenacity message' x (record started { result = failed_with x })
        ≡ (ok tt, raised_world)
      → post_execute env tenacity message' raised_world ≡ (ok tt, ended)
      → deliver x message w ≡ (ok tt, ended)
  unfolding modify ◌>>=◌
  deliver-returns x w m m' started raised_world ended a b c = rw a (rw b c)

  pub deliver_first-delivers :
      (x : TaskException) (w : World) (message message' : TaskiqMessage) (rest : List TaskiqMessage)
      (started raised_world ended : World)
      → w.sent ≡ message ∷ rest
      → pre_execute env tenacity (received_message json message) (record w { sent = rest })
        ≡ (ok message', started)
      → on_error env tenacity message' x (record started { result = failed_with x })
        ≡ (ok tt, raised_world)
      → post_execute env tenacity message' raised_world ≡ (ok tt, ended)
      → deliver_first x w.sent w ≡ ended
  deliver_first-delivers x w m m' rest started raised_world ended queued a b c =
      ap (λ l. deliver_first x l w) queued
      ∙ ap (λ r. r.1)
          (deliver-returns x (record w { sent = rest }) (received_message json m) m' started
            raised_world ended a b c)

  -- The same for a task that returns.
  abbrev deliver_returned : TaskiqMessage → Worker (Unit {0})
  deliver_returned message = pre_execute env tenacity message >>= λ message'.
      modify (λ w. record w { result = returned }) >> post_execute env tenacity message'

  abbrev finish_first : List TaskiqMessage → World → World
  finish_first [] w = w
  finish_first (message ∷ rest) w =
      (deliver_returned (received_message json message) (record w { sent = rest })).1

  deliver_returned-returns :
      (w : World) (message message' : TaskiqMessage) (started ended : World)
      → pre_execute env tenacity message w ≡ (ok message', started)
      → post_execute env tenacity message' (record started { result = returned }) ≡ (ok tt, ended)
      → deliver_returned message w ≡ (ok tt, ended)
  unfolding modify ◌>>=◌
  deliver_returned-returns w m m' started ended a b = rw a (rw b refl)

  pub finish_first-finishes :
      (w : World) (message message' : TaskiqMessage) (rest : List TaskiqMessage)
      (started ended : World)
      → w.sent ≡ message ∷ rest
      → pre_execute env tenacity (received_message json message) (record w { sent = rest })
        ≡ (ok message', started)
      → post_execute env tenacity message' (record started { result = returned }) ≡ (ok tt, ended)
      → finish_first w.sent w ≡ ended
  finish_first-finishes w m m' rest started ended queued a b =
      ap (λ l. finish_first l w) queued
      ∙ ap (λ r. r.1)
          (deliver_returned-returns (record w { sent = rest }) (received_message json m) m' started
            ended a b)

  abbrev receiver_of : Receiver env tenacity json
  receiver_of = record {
    step = λ x w. deliver_first x w.sent w;
    waits = λ x w e. deliver_first-waits x w e;
    delivers = λ x w m m' rest a b c e p q r. deliver_first-delivers x w m m' rest a b c e p q r;
    finish = λ w. finish_first w.sent w;
    finishes = λ w m m' rest a b e p q. finish_first-finishes w m m' rest a b e p q;
  }

abbrev pub receiver : Receiver env (retry_of World) json
receiver = receiver_of env (retry_of World) json

abbrev pub errors : ℕ → TaskException
errors _ = boom

-- The task 7 with one retry counted, whose message is on the queue.
abbrev pub queued_world : World
queued_world = record (world_with (task_with 1 ∷ other_task ∷ [])) { sent = message ∷ [] }

arrived_7 : extract_task_execution_id env (received_message json message) ≡ some 7
unfolding extract_task_execution_id candidates first_parsed label raw_entry parse_uuid lookup
    json_value
arrived_7 = refl

pub queued_IsWaiting : IsWaiting json (received_message json message) queued_world
queued_IsWaiting = record { queued = message; sent = refl; arrives = refl }

pub queued_IsAt : IsAt env (received_message json message) 7 (task_with 1) queued_world
queued_IsAt = record {
  named = arrived_7;
  gate = gate_open_5;
  found = refl;
  settled = refl;
  numbered = tt;
  quiet = refl;
}

-- ===== src/World.antt =====
-- What the worker's coroutines share and change: the database, a session's view of it, the broker's
-- queue, the Socket.IO server and the objects of one invocation, with the environment that decides
-- how each call of an external service ends.
use worker_template.Prelude.{ℕ, ◌+◌, String, Option, Bool, List, [], ◌∷◌, ◌++◌}
use worker_template.Exec.{Error, ok, err, Exec, gets, ◌>>◌}
use worker_template.Models.{Uuid, TaskStatus, Tables}
use worker_template.Message.{TaskiqMessage, TaskiqResult}
use worker_template.Config.{Settings}
use worker_template.Realtime.{Emission}

-- The settings, and what the worker reads from elsewhere: `UUID(text)` (`none` where it raises
-- `ValueError`), `str(uuid)`, and the values that the server and the clock give at each reading.
pub record Env : Type 0 where
  pub settings : Settings
  pub uuid_of_text : String → Option Uuid
  pub uuid_text : Uuid → String
  pub gen_random_uuid : ℕ → Uuid
  pub now : ℕ → ℕ

-- How a call of an external service ends: it takes effect; it raises and has no effect; or it takes
-- effect and raises all the same, as when the reply to a commit is lost.
pub data Outcome : Type 0 where
  fine : Outcome
  fault late : Error → Outcome

-- `_OnErrorAttempt`
pub record OnErrorAttempt : Type 0 where
  pub recorded_status : Option TaskStatus
  pub recorded_retry_count : Option ℕ
  pub status_message : Option String
  pub attempt_number : Option ℕ

-- `committed` is what the database holds, and `tables` what the session at hand sees, its own
-- flushed writes included; no other process writes these rows meanwhile. `sent` is what the broker
-- has accepted, `emitter` whether `_sio` is set, `events` what Socket.IO has sent. `schedule` holds
-- the outcomes of the calls to come; with none left they succeed. `tick` numbers the readings.
pub record World : Type 0 where
  pub committed : Tables
  pub tables : Tables
  pub sent : List TaskiqMessage
  pub emitter : Bool
  pub events : List Emission
  pub attempt : OnErrorAttempt
  pub result : TaskiqResult
  pub schedule : List Outcome
  pub tick : ℕ

abbrev pub Worker : Type 0 → Type 0
Worker A = Exec World A

abbrev settle : List Outcome → (World → World) → Worker (Unit {0})
settle [] f w = (ok tt, f w)
settle (fine ∷ rest) f w = (ok tt, f (record w { schedule = rest }))
settle (fault e ∷ rest) f w = (err e, record w { schedule = rest })
settle (late e ∷ rest) f w = (err e, f (record w { schedule = rest }))

-- A call of an external service that changes the world by `f`.
unfoldable pub effect : (World → World) → Worker (Unit {0})
effect f w = settle w.schedule f w

-- The number of this reading of a clock or of a generator.
unfoldable pub reading : Worker ℕ
reading w = (ok w.tick, record w { tick = w.tick + 1 })

-- `async with async_session_maker() as session`: what the block does not commit is gone.
unfoldable pub with_session : {A : Type 0} → Worker A → Worker A
with_session block w = block (record w { tables = w.committed })

-- `session.execute` of a query.
unfoldable pub execute : {A : Type 0} → (Tables → A) → Worker A
execute query = effect (λ w. w) >> gets (λ w. query w.tables)

-- `session.flush`, which writes what was added.
unfoldable pub flush : (Tables → Tables) → Worker (Unit {0})
flush write = effect (λ w. record w { tables = write w.tables })

-- `session.refresh`, which reads one row again.
unfoldable pub refresh : Worker (Unit {0})
refresh = effect (λ w. w)

-- `session.commit`
unfoldable pub commit : Worker (Unit {0})
commit = effect (λ w. record w { committed = w.tables })

-- `AsyncKicker.kiq`
unfoldable pub kiq : TaskiqMessage → Worker (Unit {0})
kiq message = effect (λ w. record w { sent = w.sent ++ message ∷ [] })

-- `AsyncServer.emit`
unfoldable pub emit : Emission → Worker (Unit {0})
emit emission = effect (λ w. record w { events = w.events ++ emission ∷ [] })

-- ===== src/Wiring/Imported.antt =====
-- The modules that are made at import, for settings that were loaded.
use worker_template.Prelude.{
  ◌≤◌, String, ◌≡◌, ap, true, Option, none, some, arith, str_eq, get_or, eq_iff, Bool-cases, inl,
  inr,
}
use worker_template.Exec.{ok}
use worker_template.Config.{Settings, in_bounds, new_settings}
use worker_template.Config.Validated.{HasScheme, IsLoaded, new_settings-IsLoaded}
use worker_template.Session.{EngineLibrary, module_session_maker}
use worker_template.Session.Pools.{IsImported, new_settings-module_session_maker}
use worker_template.Wiring.{Broker, in_memory, aio_pika, broker_for}

-- The broker in memory is for tests only; the other one is told URLs of the right schemes, and a
-- priority that RabbitMQ accepts.
abbrev pub IsUsable : Option String → Broker → Type 0
IsUsable taskiq_env in_memory = taskiq_env ≡ some "test"
IsUsable taskiq_env (aio_pika b) =
    HasScheme "amqp://" "amqps://" b.url
    × HasScheme "redis://" "rediss://" b.result_url
    × (b.max_priority ≤ 255)

test_only :
    (taskiq_env : Option String)
    → str_eq (get_or taskiq_env "production") "test" ≡ true
    → taskiq_env ≡ some "test"
test_only none h = cc
test_only (some name) h = ap some ((eq_iff name "test").0 h)

in_bounds-priority : (s : Settings) → in_bounds s ≡ true → s.rabbitmq_max_priority ≤ 255
unfolding in_bounds
in_bounds-priority s h = ground arith

broker_for-IsUsable :
    (s : Settings) (taskiq_env : Option String)
    → IsLoaded s
    → IsUsable taskiq_env (broker_for taskiq_env s)
unfolding broker_for
broker_for-IsUsable s taskiq_env loaded =
    elim (Bool-cases (str_eq (get_or taskiq_env "production") "test")) [
      | inl test ↦ rw test (test_only taskiq_env test)
      | inr other ↦
          rw other
            (loaded.rabbitmq_scheme, loaded.redis_scheme, in_bounds-priority s loaded.in_range)
    ]

-- For settings that `Settings()` returned, the bounds of the pool never make the import of the session
-- module raise: it raises exactly where SQLAlchemy refuses the engine with the URL, the logging of SQL
-- and the pool of the settings, and with an empty URL it always does. Where it does not raise its
-- factory makes sessions on that engine that keep their objects after a commit. The import of the
-- broker asks TaskIQ for one in memory only where `TASKIQ_ENV` is `test`, and else for one with an
-- `amqp` URL, a result backend with a `redis` URL, and a priority of 255 at most.
pub new_settings-IsUsable :
    (library : EngineLibrary) (given s : Settings) (taskiq_env : Option String)
    → new_settings given ≡ ok s
    → IsImported library s (module_session_maker library s)
      × IsUsable taskiq_env (broker_for taskiq_env s)
new_settings-IsUsable library given s taskiq_env h =
    let (same, loaded) = new_settings-IsLoaded given s h in
    (
      new_settings-module_session_maker library given s h,
      broker_for-IsUsable s taskiq_env (rw same at loaded),
    )

-- ===== src/Tests/Wiring.antt =====
-- Examples: the session, the start and the stop of the worker, and the migrations.
use worker_template.Prelude.{
  Option, ◌≢◌, str_eq, if◌then◌else◌, ◌≡◌, refl, true, false, none, some, [], ◌∷◌, ◌++◌,
}
use worker_template.Exec.{Error, failure, ok, err, ◌>>=◌}
use worker_template.Text.{starts_with}
use worker_template.Config.{
  Settings, in_bounds, new_settings, validate_rabbitmq_url, validate_redis_url, validate_config,
  validate_broker_config, validate_production_config,
}
use worker_template.World.{World, Worker}
use worker_template.Models.{failed, shadowed}
use worker_template.Session.{
  Engine, EngineLibrary, create_db_engine, pool_of, new_pool_config, in_pool_bounds,
  module_session_maker, get_session,
}
use worker_template.Session.Pools.{IsImported}
use worker_template.Wiring.{
  broker_for, health_check, readiness_check, endpoint, mounted_metrics, health_app,
}
use worker_template.Wiring.Imported.{IsUsable, new_settings-IsUsable}
use worker_template.Session.RolledBack.{Unwound, get_session-Unwound}
use worker_template.World.{with_session}
use worker_template.WorkerProcess.{Process, on_startup, on_shutdown}
use worker_template.WorkerProcess.Started.{
  state_engine, Starts, new_settings-on_startup, Stops, on_startup-on_shutdown,
}
use worker_template.Emitter.{ManagerLibrary, init_emitter}
use worker_template.Migrations.{Schema, integer, required, index_on}
use worker_template.Migrations.Framed.{over}
use worker_template.Migrations.RoundTrip.{
  IsFresh, upgrade_head, downgrade_base, head, left_type, upgrade_head-downgrade_base,
  upgrade_head_again,
}
use worker_template.Migrations.Values.{accepts, member_name, dispatch_value, upgrade_head-accepts}
use worker_template.Tests.Fixtures.{settings, world_with, task_with, other_task}

loaded : new_settings settings ≡ ok settings
unfolding new_settings in_bounds validate_rabbitmq_url validate_redis_url starts_with
loaded = refl

-- A library that refuses the empty URL only.
abbrev refusal : Engine → Option Error
refusal engine = if str_eq engine.database_url "" then some (failure "ArgumentError") else none

refusal-empty : (engine : Engine) → engine.database_url ≡ "" → refusal engine ≢ none
refusal-empty engine e accepted = cc (e, accepted)

abbrev engines : EngineLibrary
engines = record { refusal = refusal; refuses_empty = λ engine e. refusal-empty engine e }

-- A Redis manager that takes every URL.
abbrev managers : ManagerLibrary
managers = record { refusal = λ url. none }

new_settings-IsUsable_example :
    IsImported engines settings (module_session_maker engines settings)
    × IsUsable (some "production") (broker_for (some "production") settings)
new_settings-IsUsable_example =
    new_settings-IsUsable engines settings settings (some "production") loaded

-- Settings without a database URL are loaded too.
abbrev no_database : Settings
no_database = record settings { database_url = "" }

no_database_raises : module_session_maker engines no_database ≡ err (failure "ArgumentError")
unfolding module_session_maker create_db_engine pool_of new_pool_config in_pool_bounds
no_database_raises = refl

health_app_settings : health_app settings ≡ record {
  title = "worker_template Health";
  routes =
      endpoint "/health" (("status", "healthy") ∷ ("service", "worker_template") ∷ [])
      ∷ endpoint "/ready" (("status", "ready") ∷ ("service", "worker_template") ∷ [])
      ∷ mounted_metrics "/metrics"
      ∷ [];
}
unfolding health_app health_check readiness_check
health_app_settings = refl

abbrev world : World
world = world_with (task_with 1 ∷ other_task ∷ [])

-- A block that raises.
abbrev broken : Worker (Unit {0})
broken w = (err (failure "boom"), record w { tables = record w.tables { executions = [] } })

get_session-Unwound_example : Unwound (with_session broken world) (get_session broken world)
get_session-Unwound_example = get_session-Unwound broken world

abbrev process : Process
process = record {
  world = record world { emitter = false };
  engine = none;
  session_maker = none;
  disposed = [];
  logged = [];
}

new_settings-on_startup_example :
    Starts engines managers settings process
      (validate_config settings)
      (on_startup engines managers settings process)
new_settings-on_startup_example =
    new_settings-on_startup engines managers settings settings process loaded

starts_up : (on_startup engines managers settings process).0 ≡ ok tt
unfolding on_startup create_db_engine validate_config validate_broker_config
    validate_production_config init_emitter ◌>>=◌
starts_up = refl

on_startup-on_shutdown_example :
    Stops
      (state_engine settings)
      (record (on_startup engines managers settings process).1 { world = world })
      (on_shutdown (record (on_startup engines managers settings process).1 { world = world }))
on_startup-on_shutdown_example =
    on_startup-on_shutdown engines managers settings settings process world loaded starts_up

-- A schema with a table of another program.
abbrev pub other_schema : Schema
other_schema = record {
  types = record { name = "mood"; labels = "SAD" ∷ "HAPPY" ∷ [] } ∷ [];
  tables =
      record {
        name = "users";
        columns = required "id" integer ∷ [];
        primary_key = "id" ∷ [];
        foreign_keys = [];
        checks = [];
      }
      ∷ [];
  indexes = index_on "ix_users_id" "users" ("id" ∷ []) ∷ [];
}

pub other_schema-IsFresh : IsFresh other_schema
other_schema-IsFresh = record {
  no_type = refl;
  no_executions = (refl, refl, refl);
  no_attempts = (refl, refl, refl);
  no_indexes = (refl, (refl, (refl, (refl, (refl, (refl, (refl, (refl, (refl, tt)))))))));
}

upgrade_head-downgrade_base_example :
    (upgrade_head other_schema ≡ (ok tt, over other_schema head))
    × (downgrade_base (over other_schema head)
        ≡ (ok tt, record other_schema { types = other_schema.types ++ left_type.types }))
upgrade_head-downgrade_base_example = upgrade_head-downgrade_base other_schema other_schema-IsFresh

upgrade_head_again_example :
    let left = (downgrade_base (upgrade_head other_schema).1).1 in
    upgrade_head left ≡ (err (failure "DuplicateObject"), left)
upgrade_head_again_example = upgrade_head_again other_schema other_schema-IsFresh

upgrade_head-accepts_example :
    let s = (upgrade_head other_schema).1 in
    (accepts s "task_execution" "status" (member_name failed) ≡ true)
    × (accepts s "task_attempt" "status_before" (member_name failed) ≡ true)
    × (accepts s "task_attempt" "status_after" (member_name failed) ≡ true)
    × (accepts s "task_attempt" "dispatch_result" (dispatch_value shadowed) ≡ true)
upgrade_head-accepts_example =
    upgrade_head-accepts other_schema failed shadowed other_schema-IsFresh

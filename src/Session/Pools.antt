-- ===== src/Session/Pools.antt =====
-- The pool that the settings ask for.
use worker_template.Prelude.{◌≡◌, ◌≢◌, refl, true, false, arith, Option, none, some}
use worker_template.Exec.{Error, Result, ok, err}
use worker_template.Config.{Settings, in_bounds, new_settings}
use worker_template.Config.Validated.{new_settings-IsLoaded}
use worker_template.Session.{
  PoolConfig, Engine, EngineLibrary, SessionMaker, engine_unless, maker_on, create_db_engine,
  in_pool_bounds, new_pool_config, pool_of, module_session_maker,
}

-- The pool with the values of the settings.
abbrev pub settings_pool : Settings → PoolConfig
settings_pool s = record {
  size = s.db_pool_size;
  max_overflow = s.db_max_overflow;
  timeout = s.db_pool_timeout;
  recycle = s.db_pool_recycle;
  pre_ping = s.db_pool_pre_ping;
}

in_bounds-in_pool_bounds :
    (s : Settings) → in_bounds s ≡ true → in_pool_bounds (settings_pool s) ≡ true
unfolding in_bounds in_pool_bounds
in_bounds-in_pool_bounds s h = ground arith

-- The engine of the module, for the settings.
abbrev pub module_engine : Settings → Engine
module_engine s = record {
  database_url = s.database_url;
  echo = s.sqlalchemy_echo;
  pool = settings_pool s;
}

-- The outcome of the module's import: the session factory makes sessions that keep their objects after
-- a commit, on the engine of the settings, whose URL is not empty and which SQLAlchemy makes; or the
-- import raises what SQLAlchemy raises for that engine.
abbrev pub IsImported : EngineLibrary → Settings → Result SessionMaker → Type 0
IsImported library s (ok maker) =
    (library.refusal (module_engine s) ≡ none)
    × (s.database_url ≢ "")
    × (maker ≡ record { bind = module_engine s; expire_on_commit = false })
IsImported library s (err e) = library.refusal (module_engine s) ≡ some e

imports :
    (library : EngineLibrary) (s : Settings) (refusal : Option Error)
    → library.refusal (module_engine s) ≡ refusal
    → IsImported library s (maker_on (engine_unless refusal (module_engine s)))
imports library s none e = (e, λ empty. library.refuses_empty (module_engine s) empty e, refl)
imports library s (some x) e = e

-- For settings that `Settings()` returned the bounds of the pool never raise: the bounds of the
-- settings are within them. The import raises exactly where SQLAlchemy refuses the engine.
pub new_settings-module_session_maker :
    (library : EngineLibrary) (given s : Settings)
    → new_settings given ≡ ok s
    → IsImported library s (module_session_maker library s)
unfolding module_session_maker create_db_engine pool_of new_pool_config
new_settings-module_session_maker library given s h =
    let loaded = new_settings-IsLoaded given s h in
    let in_range : in_bounds s ≡ true = rw (← loaded.0) loaded.1.in_range in
    rw (in_bounds-in_pool_bounds s in_range)
      (imports library s (library.refusal (module_engine s)) refl)

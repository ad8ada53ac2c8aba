-- ===== src/Session.antt =====
-- worker_template/db/session.py: the engine, the session factory and the session of a request.
-- `init_db` is in Metadata/Declared.
pub mod Pools
pub mod RolledBack
use worker_template.Prelude.{
  ℕ, String, Bool, true, false, ◌&&◌, ◌≡◌, ◌≢◌, Option, none, some, leb, get_or, if◌then◌else◌,
}
use worker_template.Integer.{ℤ, pos}
use worker_template.Exec.{Error, Result, ok, err, failure, raise, ◌>>=◌, ◌>>◌}
use worker_template.Config.{Settings, within, from_minus_one}
use worker_template.World.{World, Worker, effect, with_session}

-- `PoolConfig`. The timeout is in seconds; the program gives whole ones only.
pub record PoolConfig : Type 0 where
  pub size : ℕ
  pub max_overflow : ℕ
  pub timeout : ℕ
  pub recycle : ℤ
  pub pre_ping : Bool

-- The bounds `ge` and `le` of its fields.
unfoldable pub in_pool_bounds : PoolConfig → Bool
in_pool_bounds p =
    within 1 100 p.size && (leb p.max_overflow 100 && (leb 1 p.timeout && from_minus_one p.recycle))

unfoldable pub new_pool_config : PoolConfig → Result PoolConfig
new_pool_config given = if in_pool_bounds given then ok given else err (failure "ValidationError")

abbrev pub default_pool_config : PoolConfig
default_pool_config = record {
  size = 5;
  max_overflow = 10;
  timeout = 30;
  recycle = pos 1800;
  pre_ping = true;
}

-- An engine, by the arguments of `create_async_engine`.
pub record Engine : Type 0 where
  pub database_url : String
  pub echo : Bool
  pub pool : PoolConfig

-- `create_async_engine`, as SQLAlchemy documents it: the exception that it raises for its arguments,
-- if it raises one. It parses the URL, and an empty text is none. What else it refuses is left open.
pub record EngineLibrary : Type 0 where
  pub refusal : Engine → Option Error
  pub refuses_empty : (engine : Engine) → engine.database_url ≡ "" → refusal engine ≢ none

abbrev pub engine_unless : Option Error → Engine → Result Engine
engine_unless none engine = ok engine
engine_unless (some e) engine = err e

unfoldable pub create_db_engine : EngineLibrary → String → Bool → Option PoolConfig → Result Engine
create_db_engine library database_url echo pool =
    let engine : Engine = record {
      database_url = database_url;
      echo = echo;
      pool = get_or pool default_pool_config;
    } in
    engine_unless (library.refusal engine) engine

-- A session factory, by the arguments of `async_sessionmaker`.
pub record SessionMaker : Type 0 where
  pub bind : Engine
  pub expire_on_commit : Bool

abbrev pub create_session_maker : Engine → SessionMaker
create_session_maker engine = record { bind = engine; expire_on_commit = false }

-- `_default_pool`
unfoldable pub pool_of : Settings → Result PoolConfig
pool_of settings = new_pool_config (record {
  size = settings.db_pool_size;
  max_overflow = settings.db_max_overflow;
  timeout = settings.db_pool_timeout;
  recycle = settings.db_pool_recycle;
  pre_ping = settings.db_pool_pre_ping;
})

abbrev pub maker_on : Result Engine → Result SessionMaker
maker_on (err e) = err e
maker_on (ok engine) = ok (create_session_maker engine)

abbrev pub made_with : EngineLibrary → Settings → Result PoolConfig → Result SessionMaker
unfolding create_db_engine
made_with library settings (err e) = err e
made_with library settings (ok pool) =
    maker_on (create_db_engine library settings.database_url settings.sqlalchemy_echo (some pool))

-- `engine` and `async_session_maker` of the module: what its import makes of the settings, or raises.
unfoldable pub module_session_maker : EngineLibrary → Settings → Result SessionMaker
unfolding made_with
module_session_maker library settings = made_with library settings (pool_of settings)

-- `session.rollback`
unfoldable pub rollback : Worker (Unit {0})
rollback = effect (λ w. record w { tables = w.committed })

abbrev pub rolled_back : {A : Type 0} → Result A × World → Result A × World
rolled_back (ok a, w) = (ok a, w)
rolled_back (err e, w) = (rollback >> raise e) w

-- `get_session`, around the block that uses the session.
unfoldable pub get_session : {A : Type 0} → Worker A → Worker A
get_session block = with_session (λ w. rolled_back (block w))

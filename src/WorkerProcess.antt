-- ===== src/WorkerProcess.antt =====
-- worker_template/worker.py: what the worker does when it starts and when it stops.
pub mod Started
use worker_template.Prelude.{
  ℕ, String, Bool, true, false, Option, none, some, List, [], ◌∷◌, ◌++◌, map, str_eq, if◌then◌else◌,
}
use worker_template.Exec.{Result, Exec, pure, lift, gets, modify, ◌>>=◌, ◌>>◌}
use worker_template.Config.{Settings, validate_config}
use worker_template.World.{World, Worker, effect}
use worker_template.Emitter.{ManagerLibrary, init_emitter, close_emitter}
use worker_template.Session.{
  Engine, EngineLibrary, SessionMaker, create_db_engine, create_session_maker,
}

-- A log record of this module.
pub data Entry : Type 0 where
  config_warning : String → Entry
  worker_started : String → String → ℕ → Entry
  worker_shutdown : Entry

-- The worker's process: the two fields of TaskIQ's `state` object, which are missing at first, the
-- engines that were disposed of, and the log. The `World` has the emitter.
pub record Process : Type 0 where
  pub world : World
  pub engine : Option Engine
  pub session_maker : Option SessionMaker
  pub disposed : List Engine
  pub logged : List Entry

-- An action of the world that all parts share.
abbrev pub in_world : {A : Type 0} → Worker A → Exec Process A
in_world m p = let (r, w) = m p.world in (r, record p { world = w })

abbrev pub log_entries : List Entry → Exec Process (Unit {0})
log_entries entries = modify (λ p. record p { logged = p.logged ++ entries })

-- `engine.dispose()`, where there is an engine; it may raise.
unfoldable pub dispose : Option Engine → Exec Process (Unit {0})
dispose none = pure tt
dispose (some engine) =
    in_world (effect (λ w. w)) >> modify (λ p. record p { disposed = p.disposed ++ engine ∷ [] })

module _ (library : EngineLibrary) (managers : ManagerLibrary) (settings : Settings) where
  unfoldable pub on_startup : Exec Process (Unit {0})
  on_startup = do
    warnings ← lift (validate_config settings)
    log_entries (map config_warning warnings)
    engine ← lift (create_db_engine library settings.database_url false none)
    let session_maker = create_session_maker engine
    modify (λ p. record p { engine = some engine; session_maker = some session_maker })
    (if str_eq settings.redis_url ""
        then pure tt
        else in_world (init_emitter managers settings.redis_url))
    log_entries
        (worker_started settings.app_name settings.environment settings.worker_concurrency ∷ [])

unfoldable pub on_shutdown : Exec Process (Unit {0})
on_shutdown = do
  engine ← gets (λ p. p.engine)
  dispose engine
  in_world close_emitter
  log_entries (worker_shutdown ∷ [])

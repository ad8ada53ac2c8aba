-- ===== src/WorkerProcess/Started.antt =====
-- The start of the worker on settings that were loaded, and its stop.
use worker_template.Prelude.{
  String, ◌≡◌, ◌≢◌, ◌⊎◌, inl, inr, refl, ap, ◌∙◌, true, false, Option, none, some, List, [], ◌∷◌,
  ◌++◌, map, pair_eq,
}
use worker_template.Exec.{Error, Result, ok, err, pure, raise, lift, gets, modify, ◌>>=◌, ◌>>◌}
use worker_template.Config.{Settings, new_settings, validate_config}
use worker_template.Config.Validated.{
  IsLoaded, Reports, new_settings-IsLoaded, new_settings-validate_config,
}
use worker_template.World.{Outcome, fine, fault, late, World, effect}
use worker_template.Emitter.{ManagerLibrary, init_emitter, close_emitter}
use worker_template.Emitter.Closed.{close_emitter-IsClosed}
use worker_template.Session.{default_pool_config, Engine, EngineLibrary, create_db_engine}
use worker_template.WorkerProcess.{
  config_warning, worker_started, worker_shutdown, Process, in_world, log_entries, dispose,
  on_startup, on_shutdown,
}

-- The engine of the worker's state.
abbrev pub state_engine : Settings → Engine
state_engine s = record { database_url = s.database_url; echo = false; pool = default_pool_config }

-- The process once it is started.
abbrev pub started : Settings → List String → Process → Process
started s warnings p = record p {
  world = record p.world { emitter = true };
  engine = some (state_engine s);
  session_maker = some (record { bind = state_engine s; expire_on_commit = false });
  logged =
      (p.logged ++ map config_warning warnings)
      ++ worker_started s.app_name s.environment s.worker_concurrency ∷ [];
}

-- The process where the engine was not made: only the warnings are logged.
abbrev pub unmade : List String → Process → Process
unmade warnings p = record p { logged = p.logged ++ map config_warning warnings }

-- The process where the engine was made and the emitter was not.
abbrev pub unannounced : Settings → List String → Process → Process
unannounced s warnings p = record (unmade warnings p) {
  engine = some (state_engine s);
  session_maker = some (record { bind = state_engine s; expire_on_commit = false });
}

-- What the start does after the check of the settings, by what SQLAlchemy raises for the engine and
-- Socket.IO for the emitter.
abbrev pub StartsOn :
    Settings
    → Process
    → List String
    → Option Error
    → Option Error
    → Result (Unit {0}) × Process
    → Type 0
StartsOn s p warnings (some e) no_emitter outcome = outcome ≡ (err e, unmade warnings p)
StartsOn s p warnings none (some e) outcome = outcome ≡ (err e, unannounced s warnings p)
StartsOn s p warnings none none outcome = outcome ≡ (ok tt, started s warnings p)

module _ (library : EngineLibrary) (managers : ManagerLibrary) (s : Settings) (p : Process) where
  -- What the start does, by what `validate_config` reports.
  abbrev pub Starts : Result (List String) → Result (Unit {0}) × Process → Type 0
  Starts (ok warnings) outcome =
      (s.database_url ≢ "")
      × StartsOn s p warnings (library.refusal (state_engine s)) (managers.refusal s.redis_url)
          outcome
  Starts (err e) outcome = (s.database_url ≡ "") × (outcome ≡ (err e, p))

  -- The start once the settings are checked.
  starts_on :
      (warnings : List String) (no_engine no_emitter : Option Error)
      → IsLoaded s
      → validate_config s ≡ ok warnings
      → library.refusal (state_engine s) ≡ no_engine
      → managers.refusal s.redis_url ≡ no_emitter
      → StartsOn s p warnings no_engine no_emitter (on_startup library managers s p)
  unfolding on_startup create_db_engine init_emitter pure raise lift modify ◌>>=◌
  starts_on warnings none none loaded e made set =
      rw e (rw made (rw loaded.redis_given (rw set refl)))
  starts_on warnings none (some x) loaded e made set =
      rw e (rw made (rw loaded.redis_given (rw set refl)))
  starts_on warnings (some x) no_emitter loaded e made set = rw e (rw made refl)

  starts :
      (reported : Result (List String))
      → IsLoaded s
      → validate_config s ≡ reported
      → Reports s reported
      → Starts reported (on_startup library managers s p)
  unfolding on_startup lift ◌>>=◌
  starts (ok warnings) loaded e reports = (
    reports.0,
    starts_on warnings (library.refusal (state_engine s)) (managers.refusal s.redis_url) loaded e
        refl refl,
  )
  starts (err x) loaded e reports = (reports.0, rw e refl)

-- Settings that `Settings()` returned: where the database URL is empty the start raises the error of
-- `validate_config` and changes nothing. Otherwise the warnings of `validate_config` are logged, in
-- their order. Where SQLAlchemy refuses the engine the start raises its exception then, and nothing
-- else is done. Where it makes the engine, the state has the engine and a session factory on it, with
-- the database URL of the settings, without the logging of SQL, and with the default pool, whatever
-- pool the settings ask for. Then the start raises what Socket.IO raises for the Redis URL of the
-- settings, and does nothing else, or it sets the emitter, is logged and returns.
pub new_settings-on_startup :
    (library : EngineLibrary) (managers : ManagerLibrary) (given s : Settings) (p : Process)
    → new_settings given ≡ ok s
    → Starts library managers s p (validate_config s) (on_startup library managers s p)
new_settings-on_startup library managers given s p h =
    let loaded = new_settings-IsLoaded given s h in
    starts library managers s p (validate_config s) (rw (← loaded.0) loaded.1) refl
      (new_settings-validate_config given s h)

-- The stop of a worker with the engine `engine`: it returned, the engine was disposed of, the emitter
-- is gone and the stop is logged; or the disposal raised, and nothing else was done, so that the
-- emitter is as it was. The tables, the queue and the events are the same.
pub record Stops (engine : Engine) (p : Process) (outcome : Result (Unit {0}) × Process)
    : Type 0 where
  pub schedule : List Outcome
  pub ends :
      (outcome ≡ (
        ok tt,
        record p {
          world = record p.world { emitter = false; schedule = schedule };
          disposed = p.disposed ++ engine ∷ [];
          logged = p.logged ++ worker_shutdown ∷ [];
        },
      ))
      ⊎ ((x : Error) × (outcome
            ≡ (err x, record p { world = record p.world { schedule = schedule } }))
          × (p.world.schedule ≢ []))

-- The stop where the disposal returned.
abbrev closing : Engine → Process → Result (Unit {0}) × Process
closing engine p =
    (in_world close_emitter >> log_entries (worker_shutdown ∷ []))
      (record p { disposed = p.disposed ++ engine ∷ [] })

closing-Stops :
    (engine : Engine) (p : Process) (rest : List Outcome)
    → Stops engine p (closing engine (record p { world = record p.world { schedule = rest } }))
unfolding modify ◌>>=◌
closing-Stops engine p rest =
    let closed = close_emitter-IsClosed (record p.world { schedule = rest }) in
    let whole =
      pair_eq (close_emitter (record p.world { schedule = rest })) closed.0
      ∙ ap (λ v. (ok tt, v)) closed.1.nothing_else in
    record { schedule = closed.1.schedule; ends = inl (rw whole refl) }

stops :
    (engine : Engine) (p : Process) (outcomes : List Outcome)
    → p.world.schedule ≡ outcomes
    → let q = record p { engine = some engine } in
      Stops engine q (on_shutdown (record q { world = record p.world { schedule = outcomes } }))
unfolding on_shutdown dispose effect gets pure modify ◌>>=◌
stops engine p [] s = closing-Stops engine (record p { engine = some engine }) []
stops engine p (fine ∷ rest) s = closing-Stops engine (record p { engine = some engine }) rest
stops engine p (fault x ∷ rest) s = record { schedule = rest; ends = inr (x, refl, λ quiet. cc) }
stops engine p (late x ∷ rest) s = record { schedule = rest; ends = inr (x, refl, λ quiet. cc) }

started_on :
    (s : Settings) (p : Process) (warnings : List String) (no_engine no_emitter : Option Error)
    (outcome : Result (Unit {0}) × Process)
    → StartsOn s p warnings no_engine no_emitter outcome
    → outcome.0 ≡ ok tt
    → outcome.1 ≡ started s warnings p
started_on s p warnings none none outcome h e = ap (λ r. r.1) h
started_on s p warnings none (some x) outcome h e = cc
started_on s p warnings (some x) no_emitter outcome h e = cc

started_of :
    (library : EngineLibrary) (managers : ManagerLibrary) (s : Settings) (p : Process)
    (reported : Result (List String)) (outcome : Result (Unit {0}) × Process)
    → Starts library managers s p reported outcome
    → outcome.0 ≡ ok tt
    → (warnings : List String) × (outcome.1 ≡ started s warnings p)
started_of library managers s p (ok warnings) outcome h e = (
  warnings,
  started_on s p warnings (library.refusal (state_engine s)) (managers.refusal s.redis_url) outcome
      h.1 e,
)
started_of library managers s p (err x) outcome h e = cc (h.1)

-- A worker whose start on settings that `Settings()` returned did not raise, and that
-- is stopped some time later: the engine of the start is disposed of, the emitter is closed and the
-- stop is logged; or the disposal raises, and nothing else is done. The tables, the queue and the
-- events are the same. `later` is what has happened to the world in between.
pub on_startup-on_shutdown :
    (library : EngineLibrary) (managers : ManagerLibrary) (given s : Settings) (p : Process)
    (later : World)
    → new_settings given ≡ ok s
    → (on_startup library managers s p).0 ≡ ok tt
    → let running = record (on_startup library managers s p).1 { world = later } in
      Stops (state_engine s) running (on_shutdown running)
on_startup-on_shutdown library managers given s p later h returned =
    let (warnings, e) =
      started_of library managers s p (validate_config s) (on_startup library managers s p)
        (new_settings-on_startup library managers given s p h) returned in
    rw e
      (stops (state_engine s) (record (started s warnings p) { world = later }) later.schedule refl)

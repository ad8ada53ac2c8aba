-- ===== src/Emitter.antt =====
-- worker_template/realtime/emitter.py
pub mod SafeUrl
pub mod Closed
use Prim.Native.Char.{Char, code}
use worker_template.Prelude.{
  ℕ, String, Bool, true, false, ◌||◌, ◌==◌, Option, none, some, if◌then◌else◌,
}
use worker_template.Text.{◌+++◌}
use worker_template.Exec.{Error, ok, pure, raise, gets, modify, ◌>>=◌, ◌>>◌}
use worker_template.Models.{Uuid}
use worker_template.Realtime.{EventData}
use worker_template.World.{Env, World, Worker, effect, emit}

-- `try: … except Exception: LOGGER.warning(…)`
unfoldable pub swallow : Worker (Unit {0}) → Worker (Unit {0})
swallow m w = (ok tt, (m w).1)

module _ (env : Env) where
  unfoldable pub emit_task_event : Uuid → String → EventData → Worker (Unit {0})
  emit_task_event tenant_id event payload w =
      if w.emitter
      then swallow
          (emit (record {
            event = event;
            payload = payload;
            room = "org:" +++ env.uuid_text tenant_id;
          }))
          w
      else (ok tt, w)

abbrev pub is_at : Char → Bool
is_at c = code c == b'@'

unfoldable pub has_at : String → Bool
has_at String.[] = false
has_at (String.◌∷◌ c s) = let rest = has_at s in is_at c || rest

-- `redis_url.rsplit("@", maxsplit=1)[-1]`: what follows the last `@`, or all of it.
unfoldable pub safe_url : String → String
unfolding has_at
safe_url String.[] = ""
safe_url (String.◌∷◌ c s) =
    let rest = safe_url s in if is_at c then rest else if has_at s then rest else String.◌∷◌ c s

-- `AsyncRedisManager`, of Socket.IO: the exception that it raises for a URL, if it raises one.
pub record ManagerLibrary : Type 0 where
  pub refusal : String → Option Error

abbrev pub set_emitter_unless : Option Error → Worker (Unit {0})
set_emitter_unless none = modify (λ w. record w { emitter = true })
set_emitter_unless (some e) = raise e

-- The log record with the safe URL is left out.
unfoldable pub init_emitter : ManagerLibrary → String → Worker (Unit {0})
init_emitter managers redis_url = set_emitter_unless (managers.refusal redis_url)

-- The manager's `disconnect` is a call of Redis, and what it raises is logged.
unfoldable pub close_emitter : Worker (Unit {0})
close_emitter = do
  running ← gets (λ w. w.emitter)
  if running
      then (do swallow (effect (λ w. w)); modify (λ w. record w { emitter = false }))
      else pure tt

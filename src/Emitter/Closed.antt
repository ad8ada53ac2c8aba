-- ===== src/Emitter/Closed.antt =====
-- Events announced after `close_emitter`.
use mathlib.Core.List.{append-nil}
use worker_template.Prelude.{
  ◌≡◌, refl, ap, ◌∙◌, String, Bool, true, false, Option, List, [], ◌∷◌, ◌++◌,
}
use worker_template.Exec.{ok, pure, gets, modify, ◌>>=◌}
use worker_template.Models.{TaskStatus}
use worker_template.Message.{TaskiqMessage}
use worker_template.World.{Env, Outcome, fine, fault, late, World, effect}
use worker_template.Emitter.{swallow, close_emitter}
use worker_template.StateTracking.Events.{emit_status_event}
use worker_template.StateTracking.Emission.{IsEmission-down, emit_status_event-IsEmission}

-- What a closed emitter leaves of the world.
pub record IsClosed (w w' : World) : Type 0 where
  pub schedule : List Outcome
  pub nothing_else : w' ≡ record w { emitter = false; schedule = schedule }

closes :
    (w : World) (up : Bool) (outcomes : List Outcome)
    → w.emitter ≡ up
    → w.schedule ≡ outcomes
    → ((close_emitter (record w { emitter = up; schedule = outcomes })).0 ≡ ok tt)
      × IsClosed w (close_emitter (record w { emitter = up; schedule = outcomes })).1
unfolding close_emitter swallow effect gets modify pure ◌>>=◌
closes w false outcomes e s = (refl, record { schedule = outcomes; nothing_else = refl })
closes w true [] e s = (refl, record { schedule = []; nothing_else = refl })
closes w true (fine ∷ rest) e s = (refl, record { schedule = rest; nothing_else = refl })
closes w true (fault x ∷ rest) e s = (refl, record { schedule = rest; nothing_else = refl })
closes w true (late x ∷ rest) e s = (refl, record { schedule = rest; nothing_else = refl })

pub close_emitter-IsClosed :
    (w : World) → ((close_emitter w).0 ≡ ok tt) × IsClosed w (close_emitter w).1
close_emitter-IsClosed w = closes w w.emitter w.schedule refl refl

-- Closing the emitter never raises, whatever Redis does, and changes nothing but the emitter and the
-- outcomes to come; and an event that is announced afterwards is not sent.
pub close_emitter-emit_status_event :
    (env : Env) (message : TaskiqMessage) (status : TaskStatus)
    (status_message error_detail : Option String) (w : World)
    → let (r, w') = close_emitter w in
      (r ≡ ok tt)
      × IsClosed w w'
      × ((emit_status_event env message status status_message error_detail w').1.events ≡ w.events)
close_emitter-emit_status_event env message status status_message error_detail w =
    let closed = close_emitter-IsClosed w in
    let w' = (close_emitter w).1 in
    let emission =
      (emit_status_event-IsEmission env message status status_message error_detail w').1 in
    let down : w'.emitter ≡ false = ap (λ v. v.emitter) closed.1.nothing_else in
    (
      closed.0,
      closed.1,
      ap (λ v. v.events) emission.nothing_else
          ∙ ap (λ l. w'.events ++ l) (IsEmission-down emission down)
          ∙ append-nil w'.events
          ∙ ap (λ v. v.events) closed.1.nothing_else,
    )

-- ===== src/StateTracking/Sound/Calls.antt =====
-- Triples for the calls of external services, for predicates that do not read the schedule.
use worker_template.Prelude.{
  String, ◌≡◌, refl, ◌+◌, Option, none, some, List, [], ◌∷◌, ◌++◌, Bool, true, false, if◌then◌else◌,
}
use worker_template.Exec.{Result, gets, ◌>>=◌}
use worker_template.Exec.Holds.{Post-final, Holds, Post, Holds-bind, Holds-pure}
use worker_template.Models.{Uuid, TaskStatus, Tables}
use worker_template.Message.{TaskiqMessage}
use worker_template.Realtime.{Emission, EventData}
use worker_template.World.{
  Env, Outcome, fine, fault, late, World, Worker, effect, execute, refresh, reading, kiq, emit,
  with_session,
}
use worker_template.Emitter.{swallow, emit_task_event}
use worker_template.StateTracking.Extract.{extract_task_execution_id, extract_tenant_id}
use worker_template.StateTracking.Events.{emit_for, emit_status_event}
use worker_template.StateTracking.Recording.{requeue}

-- `P` holds whatever outcomes are to come.
abbrev pub Stable : (World → Type 0) → Type 0
Stable P = (w : World) (rest : List Outcome) → P w → P (record w { schedule = rest })

module _ {P : World → Type 0} {Q : Unit {0} → World → Type 0} {E : World → Type 0} where
  pub Holds-effect :
      (f : World → World)
      → ((w : World) (rest : List Outcome) → P w → Q tt (f (record w { schedule = rest })))
      → ((w : World) (rest : List Outcome) → P w → E (record w { schedule = rest }))
      → ((w : World) (rest : List Outcome) → P w → E (f (record w { schedule = rest })))
      → Holds P (effect f) Q E
  unfolding effect
  Holds-effect f done refused lost = record { at = λ w h. go w.schedule w h }
    where
      settled : (outcomes : List Outcome) (w : World) → Type 0
      settled outcomes w = P w → Post Q E (effect f (record w { schedule = outcomes }))

      go : (outcomes : List Outcome) (w : World) → settled outcomes w
      go [] w h = done w [] h
      go (fine ∷ rest) w h = done w rest h
      go (fault e ∷ rest) w h = refused w rest h
      go (late e ∷ rest) w h = lost w rest h

module _ {P : World → Type 0} {E : World → Type 0} (stable : Stable P)
    (raises : (w : World) → P w → E w) where
  pub Holds-execute :
      {A : Type 0} (query : Tables → A)
      → Holds P (execute query) (λ a w. P w × (a ≡ query w.tables)) E
  unfolding execute ◌>>=◌
  Holds-execute query =
      Holds-bind (effect (λ w. w)) (λ _. gets (λ w. query w.tables))
        (Holds-effect {Q = λ _. P} (λ w. w) stable
          (λ w rest h. raises (record w { schedule = rest }) (stable w rest h))
          (λ w rest h. raises (record w { schedule = rest }) (stable w rest h)))
        (λ _. record { at = λ w h. (h, refl) })

  pub Holds-refresh : Holds P refresh (λ _. P) E
  unfolding refresh
  Holds-refresh =
      Holds-effect (λ w. w) stable
        (λ w rest h. raises (record w { schedule = rest }) (stable w rest h))
        (λ w rest h. raises (record w { schedule = rest }) (stable w rest h))

-- A reading moves the counter on.
pub Holds-reading :
    {P : World → Type 0} {E : World → Type 0}
    → ((w : World) → P w → P (record w { tick = w.tick + 1 }))
    → Holds P reading (λ _. P) E
unfolding reading
Holds-reading moved = record { at = moved }

Post-if :
    {A : Type 0} (Q : A → World → Type 0) (E : World → Type 0) (b : Bool) (r r' : Result A × World)
    → Post Q E r
    → Post Q E r'
    → Post Q E (if b then r else r')
Post-if Q E true r r' h h' = h
Post-if Q E false r r' h h' = h'

module _ {P : World → Type 0} {E : World → Type 0} (stable : Stable P) where
  -- A send that the broker refuses raises nothing.
  pub Holds-requeue :
      (message : TaskiqMessage)
      → ((w : World) → P w → P (record w { sent = w.sent ++ message ∷ [] }))
      → Holds P (requeue message) (λ _. P) E
  unfolding requeue kiq
  Holds-requeue message sends = record {
    at = λ w h. Post-final P (kiq message w) (sent_or_not.at w h);
  }
    where
      sent_or_not : Holds P (kiq message) (λ _. P) P
      sent_or_not =
          Holds-effect {Q = λ _. P} _
            (λ w rest h. sends (record w { schedule = rest }) (stable w rest h)) stable
            (λ w rest h. sends (record w { schedule = rest }) (stable w rest h))

  -- An event that is not sent raises nothing.
  pub emit_status_event-Holds :
      (env : Env) (message : TaskiqMessage) (status : TaskStatus)
      (status_message error_detail : Option String)
      → ((w : World) (e : Emission) → P w → P (record w { events = w.events ++ e ∷ [] }))
      → Holds P (emit_status_event env message status status_message error_detail) (λ _. P) E
  unfolding emit_status_event emit swallow emit_task_event emit_for
  emit_status_event-Holds env message status status_message error_detail emits =
      emit_for-Holds (extract_task_execution_id env message) (extract_tenant_id env message)
    where
      emit-Keeps : (e : Emission) → Holds P (emit e) (λ _. P) P
      emit-Keeps e =
          Holds-effect {Q = λ _. P} _
            (λ w rest h. emits (record w { schedule = rest }) e (stable w rest h)) stable
            (λ w rest h. emits (record w { schedule = rest }) e (stable w rest h))

      swallow-Holds : (e : Emission) → Holds P (swallow (emit e)) (λ _. P) P
      swallow-Holds e = record { at = λ w h. Post-final P (emit e w) ((emit-Keeps e).at w h) }

      task_event-Keeps :
          (tenant_id : Uuid) (event : String) (payload : EventData)
          → Holds P (emit_task_event env tenant_id event payload) (λ _. P) P
      task_event-Keeps tenant_id event payload = record {
        at = λ w h. Post-if (λ _. P) P w.emitter _ _ ((swallow-Holds _).at w h) h;
      }

      emit_for-Holds :
          (task_id tenant_id : Option Uuid)
          → Holds P
              (emit_for env message status status_message error_detail task_id tenant_id)
              (λ _. P)
              E
      emit_for-Holds (some task_id) (some tenant_id) = record {
        at = λ w h. Post-final P _ ((task_event-Keeps tenant_id _ _).at w h);
      }
      emit_for-Holds none tenant_id = Holds-pure tt (λ w h. h)
      emit_for-Holds (some task_id) none = Holds-pure tt (λ w h. h)

-- A session begins with what is committed.
pub Holds-with_session :
    {A : Type 0} {P P' : World → Type 0} {Q : A → World → Type 0} {E : World → Type 0}
    (m : Worker A)
    → ((w : World) → P w → P' (record w { tables = w.committed }))
    → Holds P' m Q E
    → Holds P (with_session m) Q E
unfolding with_session
Holds-with_session m opens h = record {
  at = λ w p. h.at (record w { tables = w.committed }) (opens w p);
}

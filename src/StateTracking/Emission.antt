-- ===== src/StateTracking/Emission.antt =====
-- What announcing a status does to the world: worker_template/realtime/emitter.py under
-- `_emit_status_event`.
use mathlib.Core.List.{append-nil}
use worker_template.Prelude.{
  ◌≡◌, refl, sym, ap, ◌∙◌, Bool-cases, ◌⊎◌, inl, inr, String, Bool, true, false, Option, none, some,
  List, [], ◌∷◌, ◌++◌, if◌then◌else◌,
}
use worker_template.Exec.{Error, ok, pure}
use worker_template.Models.{Uuid, TaskStatus}
use worker_template.Message.{TaskiqMessage}
use worker_template.Realtime.{Emission}
use worker_template.World.{Env, Outcome, fine, fault, late, World, effect, emit}
use worker_template.Emitter.{swallow, emit_task_event}
use worker_template.StateTracking.Extract.{extract_task_execution_id, extract_tenant_id}
use worker_template.StateTracking.Events.{emit_for, emit_status_event}
use worker_template.StateTracking.Announcement.{announces, emission_for, expected_emission}

-- The next call of an external service has no effect.
abbrev pub IsFaulty : List Outcome → Type 0
IsFaulty schedule = (x : Error) × (rest : List Outcome) × (schedule ≡ fault x ∷ rest)

-- What an emission may do to the world: it changes only the events sent and the outcomes to come;
-- it sends nothing or exactly the expected event, nothing without an emitter, and the event where
-- there is an emitter and the call takes effect, also where its reply is lost.
pub record IsEmission (expected : List Emission) (w w' : World) : Type 0 where
  pub events : List Emission
  pub schedule : List Outcome
  pub nothing_else : w' ≡ record w { events = w.events ++ events; schedule = schedule }
  pub sent_or_not : (events ≡ []) ⊎ (events ≡ expected)
  pub down : (w.emitter ≡ true) ⊎ (events ≡ [])
  pub calm : (w.emitter ≡ false) ⊎ (IsFaulty w.schedule ⊎ (events ≡ expected))

pub IsEmission-down :
    {expected : List Emission} {w w' : World}
    → (h : IsEmission expected w w') → w.emitter ≡ false
    → h.events ≡ []
IsEmission-down h off = elim h.down [ inl up ↦ cc | inr none_sent ↦ none_sent ]

pub IsEmission-calm :
    {expected : List Emission} {w w' : World}
    → (h : IsEmission expected w w') → w.emitter ≡ true
    → w.schedule ≡ []
    → h.events ≡ expected
IsEmission-calm h up quiet = elim h.calm [
  | inl off ↦ cc
  | inr (inl (x, rest, busy)) ↦ cc
  | inr (inr all_sent) ↦ all_sent
]

-- What is sent where no call fails.
pub IsEmission-events :
    {expected : List Emission} {w w' : World}
    → IsEmission expected w w'
    → w.schedule ≡ []
    → w'.events ≡ w.events ++ (if w.emitter then expected else [])
IsEmission-events {expected} {w} h quiet =
    ap (λ v. v.events) h.nothing_else ∙ ap (λ l. w.events ++ l) sent_events
  where
    sent_events : h.events ≡ (if w.emitter then expected else [])
    sent_events = elim (Bool-cases w.emitter) [
      | inl up ↦ IsEmission-calm h up quiet ∙ ap (λ b. if b then expected else []) (sym up)
      | inr off ↦ IsEmission-down h off ∙ ap (λ b. if b then expected else []) (sym off)
    ]

unsent :
    (expected : List Emission) (w : World) (rest : List Outcome)
    → (w.emitter ≡ false) ⊎ (IsFaulty w.schedule ⊎ ([] ≡ expected))
    → IsEmission expected w (record w { schedule = rest })
unsent expected w rest h = record {
  events = [];
  schedule = rest;
  nothing_else = ap (λ l. record w { events = l; schedule = rest }) (sym (append-nil w.events));
  sent_or_not = inl refl;
  down = inr refl;
  calm = h;
}

delivered :
    (e : Emission) (w : World) (rest : List Outcome)
    → w.emitter ≡ true
    → IsEmission (e ∷ []) w (record w { events = w.events ++ e ∷ []; schedule = rest })
delivered e w rest up = record {
  events = e ∷ [];
  schedule = rest;
  nothing_else = refl;
  sent_or_not = inr refl;
  down = inl up;
  calm = inr (inr refl);
}

emit-IsEmission :
    (e : Emission) (outcomes : List Outcome) (w : World)
    → w.emitter ≡ true
    → w.schedule ≡ outcomes
    → IsEmission (e ∷ []) w (emit e (record w { schedule = outcomes })).1
unfolding emit effect
emit-IsEmission e [] w up s = delivered e w [] up
emit-IsEmission e (fine ∷ rest) w up s = delivered e w rest up
emit-IsEmission e (fault x ∷ rest) w up s = unsent (e ∷ []) w rest (inr (inl (x, rest, s)))
emit-IsEmission e (late x ∷ rest) w up s = delivered e w rest up

IsEmission-if :
    (b : Bool) (expected : List Emission) (w w' : World)
    → w.emitter ≡ b
    → (w.emitter ≡ true → IsEmission expected w w')
    → IsEmission expected w (if b then swallow (λ _. (ok tt, w')) w else (ok tt, w)).1
unfolding swallow
IsEmission-if true expected w w' e h = h e
IsEmission-if false expected w w' e h = unsent expected w w.schedule (inl e)

emit_for-IsEmission :
    (env : Env) (message : TaskiqMessage) (status : TaskStatus)
    (status_message error_detail : Option String) (task_id tenant_id : Option Uuid) (w : World)
    → IsEmission
        (emission_for env message status status_message error_detail task_id tenant_id)
        w
        (emit_for env message status status_message error_detail task_id tenant_id w).1
unfolding emit_for emit_task_event swallow pure
emit_for-IsEmission env message status status_message error_detail (some task_id) (some tenant_id)
      w =
    rw (announces env status task_id message.task_name tenant_id status_message error_detail)
      (IsEmission-if w.emitter _ w _ refl (λ up. emit-IsEmission _ w.schedule w up refl))
emit_for-IsEmission env message status status_message error_detail none tenant_id w =
    unsent _ w w.schedule (inr (inr refl))
emit_for-IsEmission env message status status_message error_detail (some task_id) none w =
    unsent _ w w.schedule (inr (inr refl))

emit_for_returns :
    (env : Env) (message : TaskiqMessage) (status : TaskStatus)
    (status_message error_detail : Option String) (task_id tenant_id : Option Uuid) (w : World)
    → (emit_for env message status status_message error_detail task_id tenant_id w).0 ≡ ok tt
unfolding emit_for swallow pure
emit_for_returns env message status status_message error_detail (some task_id) (some tenant_id) w =
    refl
emit_for_returns env message status status_message error_detail none tenant_id w = refl
emit_for_returns env message status status_message error_detail (some task_id) none w = refl

emit_for-schedule :
    (env : Env) (message : TaskiqMessage) (status : TaskStatus)
    (status_message error_detail : Option String) (task_id tenant_id : Option Uuid) (w : World)
    → w.schedule ≡ []
    → (emit_for env message status status_message error_detail task_id tenant_id w).1.schedule ≡ []
unfolding emit_for emit_task_event swallow emit effect pure
emit_for-schedule env message status status_message error_detail (some task_id) (some tenant_id) w
      quiet =
    elim (Bool-cases w.emitter) [ inl up ↦ rw up (rw quiet refl) | inr off ↦ rw off quiet ]
emit_for-schedule env message status status_message error_detail none tenant_id w quiet = quiet
emit_for-schedule env message status status_message error_detail (some task_id) none w quiet = quiet

-- Where no call is to fail, none is after an announcement.
pub emit_status_event-schedule :
    (env : Env) (message : TaskiqMessage) (status : TaskStatus)
    (status_message error_detail : Option String) (w : World)
    → w.schedule ≡ []
    → (emit_status_event env message status status_message error_detail w).1.schedule ≡ []
unfolding emit_status_event
emit_status_event-schedule env message status status_message error_detail w quiet =
    emit_for-schedule env message status status_message error_detail
      (extract_task_execution_id env message) (extract_tenant_id env message) w quiet

-- Announcing a status change never raises, whatever Socket.IO does, and changes nothing but the
-- events sent and the outcomes to come. What is sent is nothing, or the one event of this status,
-- task and tenant, in the room of that tenant: nothing where the emitter is not initialised, and the
-- event where it is and the call takes effect, also where its reply is lost. A message without a task
-- execution or a tenant has none.
pub emit_status_event-IsEmission :
    (env : Env) (message : TaskiqMessage) (status : TaskStatus)
    (status_message error_detail : Option String) (w : World)
    → let (r, w') = emit_status_event env message status status_message error_detail w in
      (r ≡ ok tt)
      × IsEmission (expected_emission env message status status_message error_detail) w w'
unfolding emit_status_event
emit_status_event-IsEmission env message status status_message error_detail w = (
  emit_for_returns env message status status_message error_detail
      (extract_task_execution_id env message) (extract_tenant_id env message) w,
  emit_for-IsEmission env message status status_message error_detail
      (extract_task_execution_id env message) (extract_tenant_id env message) w,
)

-- ===== src/Middleware/Tenant/Agreement.antt =====
-- The tenant that a task runs for, and the tenant that its events go to.
use worker_template.Prelude.{◌≡◌, refl, Option, none, some, ◌⊎◌, inl, inr}
use worker_template.Models.{Uuid}
use worker_template.Message.{Value, lookup, TaskiqMessage}
use worker_template.World.{Env}
use worker_template.StateTracking.Extract.{
  tenant_key, raw_entry, label, parse_given, tenant_from, extract_tenant_id,
}
use worker_template.Middleware.Context.{Context, set_task_context, set_tenant_id}
use worker_template.Middleware.Tenant.{tenant_in, tenant_of_kwargs, tenant_pre_execute}

label_left :
    (env : Env) (direct raw from_label : Option Value) (t : Uuid)
    → tenant_in env direct raw ≡ some t
    → tenant_from env direct raw from_label ≡ some t
label_left env (some v) raw from_label t e = e
label_left env none (some v) from_label t e = e
label_left env none none from_label t e = cc

-- The tenant that `pre_execute` finds in the keyword arguments is the tenant that state tracking finds,
-- whatever the labels say; `pre_execute` sets it for the task and for the log.
pub tenant_of_kwargs-extract_tenant_id :
    (env : Env) (message : TaskiqMessage) (c : Context) (t : Uuid)
    → tenant_of_kwargs env message.kwargs ≡ some t
    → (extract_tenant_id env message ≡ some t)
      × (tenant_pre_execute env message c
          ≡ record c { tenant_id = some t; logged_tenant_id = some (env.uuid_text t) })
unfolding tenant_of_kwargs extract_tenant_id tenant_pre_execute set_task_context set_tenant_id
tenant_of_kwargs-extract_tenant_id env message c t e = (label_left env _ _ _ t e, rw e refl)

-- The tenant of the label is what state tracking has and `pre_execute` has not.
abbrev pub IsLabelled : Env → TaskiqMessage → Uuid → Type 0
IsLabelled env message t =
    (lookup tenant_key message.kwargs ≡ none)
    × (raw_entry tenant_key message.kwargs ≡ none)
    × (parse_given env (label tenant_key message.labels) ≡ some t)

found_or_labelled :
    (env : Env) (direct raw from_label : Option Value) (t : Uuid)
    → tenant_from env direct raw from_label ≡ some t
    → (tenant_in env direct raw ≡ some t)
      ⊎ ((tenant_in env direct raw ≡ none)
          × (direct ≡ none)
          × (raw ≡ none)
          × (parse_given env from_label ≡ some t))
found_or_labelled env (some v) raw from_label t e = inl e
found_or_labelled env none (some v) from_label t e = inl e
found_or_labelled env none none from_label t e = inr (refl, refl, refl, e)

-- Where state tracking finds a tenant in a message, `pre_execute` never sets another one: it sets that
-- tenant for the task and for the log; or neither the keyword arguments nor `raw_input` has the key of
-- the tenant, the tenant is that of the label, and `pre_execute` changes nothing, so that the task
-- runs without it.
pub extract_tenant_id-tenant_pre_execute :
    (env : Env) (message : TaskiqMessage) (c : Context) (t : Uuid)
    → extract_tenant_id env message ≡ some t
    → (tenant_pre_execute env message c
        ≡ record c { tenant_id = some t; logged_tenant_id = some (env.uuid_text t) })
      ⊎ (IsLabelled env message t × (tenant_pre_execute env message c ≡ c))
unfolding tenant_of_kwargs extract_tenant_id tenant_pre_execute set_task_context set_tenant_id
extract_tenant_id-tenant_pre_execute env message c t e = elim (found_or_labelled env _ _ _ t e) [
  | inl found ↦ inl (rw found refl)
  | inr (absent, direct, raw, labelled) ↦ inr ((direct, raw, labelled), rw absent refl)
]

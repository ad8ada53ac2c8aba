-- ===== src/Middleware/Tenant.antt =====
-- `TenantMiddleware` of worker_template/middleware/tenant.py.
pub mod Agreement
use worker_template.Prelude.{String, Option, none, some}
use worker_template.Models.{Uuid}
use worker_template.Message.{Value, Fields, lookup, TaskiqMessage}
use worker_template.World.{Env}
use worker_template.StateTracking.Extract.{tenant_key, raw_entry, parse_uuid}
use worker_template.Middleware.Context.{Context, set_task_context, set_tenant_id, clear_tenant_id}

module _ (env : Env) where
  abbrev pub tenant_in_raw : Option Value → Option Uuid
  tenant_in_raw none = none
  tenant_in_raw (some v) = parse_uuid env v

  abbrev pub tenant_in : Option Value → Option Value → Option Uuid
  tenant_in (some v) from_raw = parse_uuid env v
  tenant_in none from_raw = tenant_in_raw from_raw

  -- `_parse_uuid` and the keys are those of state tracking, word for word.
  unfoldable pub tenant_of_kwargs : Fields → Option Uuid
  tenant_of_kwargs kwargs = tenant_in (lookup tenant_key kwargs) (raw_entry tenant_key kwargs)

  abbrev pub set_tenant : Option Uuid → Context → Context
  set_tenant none c = c
  set_tenant (some tenant_id) c =
      set_task_context none (some (env.uuid_text tenant_id)) none (set_tenant_id tenant_id c)

  unfoldable pub tenant_pre_execute : TaskiqMessage → Context → Context
  tenant_pre_execute message = set_tenant (tenant_of_kwargs message.kwargs)

-- `post_execute` and `on_error` do the same.
unfoldable pub tenant_post_execute : Context → Context
tenant_post_execute c = clear_tenant_id c

unfoldable pub tenant_on_error : Context → Context
tenant_on_error c = clear_tenant_id c

-- ===== src/Middleware/Context.antt =====
-- The context variables of worker_template/core/logging.py and worker_template/core/tenants.py.
use worker_template.Prelude.{String, Option, none, some, keep_or}
use worker_template.Models.{Uuid}

-- `task_id`, `logged_tenant_id` and `task_name` are the variables of logging.py, `tenant_id` is that of
-- tenants.py.
pub record Context : Type 0 where
  pub task_id : Option String
  pub logged_tenant_id : Option String
  pub task_name : Option String
  pub tenant_id : Option Uuid

-- An argument that is `None` leaves its variable alone.
unfoldable pub set_task_context : Option String → Option String → Option String → Context → Context
set_task_context task_id tenant_id task_name c = record c {
  task_id = keep_or task_id c.task_id;
  logged_tenant_id = keep_or tenant_id c.logged_tenant_id;
  task_name = keep_or task_name c.task_name;
}

unfoldable pub clear_task_context : Context → Context
clear_task_context c = record c { task_id = none; logged_tenant_id = none; task_name = none }

unfoldable pub set_tenant_id : Uuid → Context → Context
set_tenant_id tenant_id c = record c { tenant_id = some tenant_id }

unfoldable pub clear_tenant_id : Context → Context
clear_tenant_id c = record c { tenant_id = none }

-- The getters of tenants.py and of logging.py, whose `get_tenant_id` is `get_logged_tenant_id` here.
abbrev pub get_tenant_id : Context → Option Uuid
get_tenant_id c = c.tenant_id

abbrev pub get_task_id : Context → Option String
get_task_id c = c.task_id

abbrev pub get_logged_tenant_id : Context → Option String
get_logged_tenant_id c = c.logged_tenant_id

abbrev pub get_task_name : Context → Option String
get_task_name c = c.task_name

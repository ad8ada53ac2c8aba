-- ===== src/StateTracking/Extract.antt =====
-- `_parse_uuid`, `_extract_task_execution_id` and `_extract_tenant_id` of state_tracking.py.
use worker_template.Prelude.{String, Option, none, some, List, [], ◌∷◌, ◌++◌}
use worker_template.Models.{Uuid}
use worker_template.Message.{Value, null, uuid, dict, plain, Fields, lookup, TaskiqMessage}
use worker_template.World.{Env}

abbrev pub task_execution_id_key : String
task_execution_id_key = "task_execution_id"

abbrev pub raw_input_key : String
raw_input_key = "raw_input"

abbrev pub tenant_key : String
tenant_key = "tenant_id"

module _ (env : Env) where
  -- `str(value)` of a value that is no UUID.
  unfoldable pub parse_uuid : Value → Option Uuid
  parse_uuid (uuid u) = some u
  parse_uuid null = env.uuid_of_text "None"
  parse_uuid (dict text entries) = env.uuid_of_text text
  parse_uuid (plain text) = env.uuid_of_text text

-- `raw_input[key]`, where `raw_input` is a `dict` that has the key.
abbrev pub dict_entry : String → Option Value → Option Value
dict_entry key (some (dict text entries)) = lookup key entries
dict_entry key _ = none

unfoldable pub raw_entry : String → Fields → Option Value
unfolding lookup
raw_entry key kwargs = dict_entry key (lookup raw_input_key kwargs)

-- A label that is not `None`.
abbrev pub not_null : Option Value → Option Value
not_null (some null) = none
not_null none = none
not_null (some (uuid u)) = some (uuid u)
not_null (some (dict text entries)) = some (dict text entries)
not_null (some (plain text)) = some (plain text)

unfoldable pub label : String → Fields → Option Value
unfolding lookup
label key labels = not_null (lookup key labels)

abbrev pub option_list {ℓ} : {A : Type ℓ} → Option A → List A
option_list none = []
option_list (some a) = a ∷ []

-- The sources in priority order: labels, kwargs, raw_input.
unfoldable pub candidates : TaskiqMessage → List Value
unfolding label raw_entry
candidates message =
    option_list (label task_execution_id_key message.labels)
    ++ (option_list (lookup task_execution_id_key message.kwargs)
        ++ option_list (raw_entry task_execution_id_key message.kwargs))

module _ (env : Env) where
  abbrev pub or_parsed : Option Uuid → Option Uuid → Option Uuid
  or_parsed (some u) rest = some u
  or_parsed none rest = rest

  unfoldable pub first_parsed : List Value → Option Uuid
  unfolding parse_uuid
  first_parsed [] = none
  first_parsed (v ∷ vs) = or_parsed (parse_uuid env v) (first_parsed vs)

  unfoldable pub extract_task_execution_id : TaskiqMessage → Option Uuid
  unfolding candidates first_parsed
  extract_task_execution_id message = first_parsed (candidates message)

  abbrev pub parse_given : Option Value → Option Uuid
  parse_given none = none
  parse_given (some v) = parse_uuid env v

  -- The value in `raw_input` counts where it is there, and the label only where it is not.
  abbrev pub tenant_from_raw : Option Value → Option Value → Option Uuid
  tenant_from_raw (some v) from_label = parse_uuid env v
  tenant_from_raw none from_label = parse_given from_label

  abbrev pub tenant_from : Option Value → Option Value → Option Value → Option Uuid
  tenant_from (some v) from_raw from_label = parse_uuid env v
  tenant_from none from_raw from_label = tenant_from_raw from_raw from_label

  unfoldable pub extract_tenant_id : TaskiqMessage → Option Uuid
  unfolding parse_uuid raw_entry label
  extract_tenant_id message =
      tenant_from (lookup tenant_key message.kwargs) (raw_entry tenant_key message.kwargs)
        (label tenant_key message.labels)

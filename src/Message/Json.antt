-- ===== src/Message/Json.antt =====
-- The passage of a message through the broker. TaskIQ hands it over as JSON, so that the hooks of the
-- worker see other values than those that were given to `kiq`.
use worker_template.Prelude.{String, ◌≡◌, refl, List, [], ◌∷◌, map}
use mathlib.Core.Path.{ap₂}
use worker_template.Models.{Uuid}
use worker_template.Message.{Value, null, uuid, dict, plain, Fields, end, field, TaskiqMessage}
use worker_template.World.{Env}

abbrev pub map_fields : (Value → Value) → Fields → Fields
map_fields f end = end
map_fields f (field k v rest) = field k (f v) (map_fields f rest)

-- What TaskIQ makes of the values of a message, as it and worker_template/tasks/contracts.py document
-- it: a UUID arrives as its text, `None` as `None`, and a `dict` as a `dict` with the same keys and with
-- its values so treated. What has arrived once arrives the same when it is sent again.
pub record Json (env : Env) : Type 0 where
  pub received : Value → Value
  pub received_label : Value → Value
  pub dict_text : Fields → String
  pub sends_null : received null ≡ null
  pub sends_uuid : (u : Uuid) → received (uuid u) ≡ plain (env.uuid_text u)
  pub sends_dict :
      (text : String) (entries : Fields)
      → received (dict text entries) ≡ dict (dict_text entries) (map_fields received entries)
  pub sends_again : (v : Value) → received (received v) ≡ received v
  pub labels_again : (v : Value) → received_label (received_label v) ≡ received_label v

map_fields-again :
    (f : Value → Value)
    → ((v : Value) → f (f v) ≡ f v)
    → (fields : Fields) → map_fields f (map_fields f fields) ≡ map_fields f fields
map_fields-again f again end = refl
map_fields-again f again (field k v rest) = ap₂ (field k) (again v) (map_fields-again f again rest)

map-again :
    (f : Value → Value)
    → ((v : Value) → f (f v) ≡ f v)
    → (values : List Value) → map f (map f values) ≡ map f values
map-again f again [] = refl
map-again f again (v ∷ values) = ap₂ ◌∷◌ (again v) (map-again f again values)

module _ {env : Env} (json : Json env) where
  abbrev pub received_message : TaskiqMessage → TaskiqMessage
  received_message message = record message {
    labels = map_fields json.received_label message.labels;
    args = map json.received message.args;
    kwargs = map_fields json.received message.kwargs;
  }

  pub received_message-again :
      (message : TaskiqMessage)
      → received_message (received_message message) ≡ received_message message
  received_message-again message = λ i. record message {
    labels = map_fields-again json.received_label json.labels_again message.labels i;
    args = map-again json.received json.sends_again message.args i;
    kwargs = map_fields-again json.received json.sends_again message.kwargs i;
  }

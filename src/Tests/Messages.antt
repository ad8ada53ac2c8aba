-- ===== src/Tests/Messages.antt =====
-- A passage through JSON that treats the values of a message as TaskIQ documents it.
use worker_template.Prelude.{String, ◌≡◌, refl, ap}
use mathlib.Core.Path.{ap₂}
use worker_template.Models.{Uuid}
use worker_template.Message.{Value, null, uuid, dict, plain, Fields, end, field}
use worker_template.Message.Json.{map_fields, Json}
use worker_template.Text.{str_nat}
use worker_template.Tests.Fixtures.{env}

unfoldable mutual
  pub json_value : Value → Value
  json_value null = null
  json_value (uuid u) = plain (str_nat u)
  json_value (dict text entries) = dict "{}" (json_fields entries)
  json_value (plain text) = plain text

  pub json_fields : Fields → Fields
  json_fields end = end
  json_fields (field k v rest) = field k (json_value v) (json_fields rest)

json_fields-map : (fields : Fields) → json_fields fields ≡ map_fields json_value fields
unfolding json_fields
json_fields-map end = refl
json_fields-map (field k v rest) = ap (field k (json_value v)) (json_fields-map rest)

mutual
  unfolding json_value json_fields

  pub json_value-again : (v : Value) → json_value (json_value v) ≡ json_value v
  json_value-again null = refl
  json_value-again (uuid u) = refl
  json_value-again (dict text entries) = ap (dict "{}") (json_fields-again entries)
  json_value-again (plain text) = refl

  pub json_fields-again : (fields : Fields) → json_fields (json_fields fields) ≡ json_fields fields
  json_fields-again end = refl
  json_fields-again (field k v rest) = ap₂ (field k) (json_value-again v) (json_fields-again rest)

pub json_value-dict :
    (text : String) (entries : Fields)
    → json_value (dict text entries) ≡ dict "{}" (map_fields json_value entries)
unfolding json_value
json_value-dict text entries = ap (dict "{}") (json_fields-map entries)

pub json_value-null : json_value null ≡ null
unfolding json_value
json_value-null = refl

pub json_value-uuid : (u : Uuid) → json_value (uuid u) ≡ plain (env.uuid_text u)
unfolding json_value
json_value-uuid u = refl

abbrev pub json : Json env
json = record {
  received = json_value;
  received_label = json_value;
  dict_text = λ entries. "{}";
  sends_null = json_value-null;
  sends_uuid = λ u. json_value-uuid u;
  sends_dict = λ text entries. json_value-dict text entries;
  sends_again = λ v. json_value-again v;
  labels_again = λ v. json_value-again v;
}

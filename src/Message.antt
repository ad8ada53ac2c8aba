-- ===== src/Message.antt =====
-- What the broker hands to the middleware: a message with its labels and keyword arguments, the
-- result of a task, and the exception that it raised.
pub mod Json
use worker_template.Prelude.{String, Option, none, some, Bool, List, str_eq, if◌then◌else◌}
use worker_template.Models.{Uuid}

-- A Python value, as far as the program looks at one: `None`, a `UUID`, a `dict` with its entries
-- under text keys, or any other object. A `dict` and another object carry their `str()`.
mutual
  pub data Value : Type 0 where
    null : Value
    uuid : Uuid → Value
    dict : String → Fields → Value
    plain : String → Value

  pub data Fields : Type 0 where
    end : Fields
    field : String → Value → Fields → Fields

-- `d.get(key)`, where a missing key is told apart from a key with the value `None`.
unfoldable pub lookup : String → Fields → Option Value
lookup k end = none
lookup k (field j v rest) = if str_eq k j then some v else lookup k rest

pub record TaskiqMessage : Type 0 where
  pub task_id : String
  pub task_name : String
  pub labels : Fields
  pub args : List Value
  pub kwargs : Fields

-- `result.error`: TaskIQ's `NoResultError`, or another exception with its `str()`.
pub data ResultError : Type 0 where
  no_result : ResultError
  raised : String → ResultError

-- `shadow_retry` is the entry `_SHADOW_RETRY_MARKER` of the result's `__dict__`.
pub record TaskiqResult : Type 0 where
  pub is_err : Bool
  pub error : Option ResultError
  pub shadow_retry : Bool

-- An exception: the name of its class, and its text.
pub record TaskException : Type 0 where
  pub type_name : String
  pub text : String

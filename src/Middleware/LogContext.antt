-- ===== src/Middleware/LogContext.antt =====
-- `get_logging_context` and `log_with_context` of worker_template/core/logging.py.
use mathlib.Core.Bool.{false≢true}
use worker_template.Prelude.{
  ℕ, String, ◌≡◌, refl, Bool, true, false, Option, none, some, str_eq, Bool-cases, inl, inr, ◌⊎◌,
  if◌then◌else◌, eq_iff, sym, ◌∙◌, ap,
}
use worker_template.Message.{Value, null, plain, Fields, end, field, lookup}
use worker_template.Services.TaskExecutionService.Updates.{or_else}
use worker_template.Middleware.Context.{Context, get_task_id, get_logged_tenant_id, get_task_name}
use worker_template.Middleware.Metrics.{set_field}

abbrev pub optional_text : Option String → Value
optional_text none = null
optional_text (some text) = plain text

-- The entries of the context.
unfoldable pub get_logging_context : Context → Fields
get_logging_context c = field "task_id" (optional_text (get_task_id c)) (
    field "tenant_id" (optional_text (get_logged_tenant_id c))
      (field "task_name" (optional_text (get_task_name c)) end))

-- `merged_extra.update(extra)`
unfoldable pub update : Fields → Fields → Fields
update merged end = merged
update merged (field key v rest) = update (set_field key v merged) rest

-- A call of `logger.log`, by its arguments.
pub record LogCall : Type 0 where
  pub level : ℕ
  pub message : String
  pub extra : Fields

unfoldable pub log_with_context : Context → ℕ → String → Option Fields → LogCall
log_with_context c level message none = record {
  level = level;
  message = message;
  extra = get_logging_context c;
}
log_with_context c level message (some extra) = record {
  level = level;
  message = message;
  extra = update (get_logging_context c) extra;
}

if_twice :
    {A : Type 0} (b : Bool) (x y z : A)
    → (if b then x else z) ≡ (if b then x else if b then y else z)
if_twice true x y z = refl
if_twice false x y z = refl

if_swap :
    {A : Type 0} (b c : Bool) (x y z : A)
    → (b ≡ false) ⊎ (c ≡ false)
    → (if b then x else if c then y else z) ≡ (if c then y else if b then x else z)
if_swap true true x y z (inl e) = cc
if_swap true true x y z (inr e) = cc
if_swap true false x y z h = refl
if_swap false true x y z h = refl
if_swap false false x y z h = refl

-- A key is not two different ones.
apart : (k i j : String) → str_eq j i ≡ false → (str_eq k i ≡ false) ⊎ (str_eq k j ≡ false)
apart k i j other = elim (Bool-cases (str_eq k i)) [
  | inl first ↦ elim (Bool-cases (str_eq k j)) [
    | inl second ↦
        let one : j ≡ i = sym ((eq_iff k j).0 second) ∙ (eq_iff k i).0 first in
        absurd (false≢true (sym other ∙ (eq_iff j i).1 one))
    | inr different ↦ inr different
  ]
  | inr different ↦ inl different
]

or_else_if :
    (later : Option Value) (b : Bool) (v : Value) (old : Option Value)
    → or_else later (if b then some v else old)
      ≡ or_else (or_else later (if b then some v else none)) old
or_else_if none true v old = refl
or_else_if none false v old = refl
or_else_if (some u) b v old = refl

lookup-set_field :
    (k j : String) (v : Value) (f : Fields)
    → lookup k (set_field j v f) ≡ (if str_eq k j then some v else lookup k f)
unfolding lookup set_field
lookup-set_field k j v end = refl
lookup-set_field k j v (field i u rest) = elim (Bool-cases (str_eq j i)) [
  | inl same ↦
      let one : j ≡ i = (eq_iff j i).0 same in
      rw same (rw one (if_twice (str_eq k i) (some v) (some u) (lookup k rest)))
  | inr other ↦ rw other (
      rw (lookup-set_field k j v rest)
        (if_swap (str_eq k i) (str_eq k j) (some u) (some v) (lookup k rest) (apart k i j other)))
]

-- The last value that the fields give to the key.
abbrev pub last_value : String → Fields → Option Value
last_value k end = none
last_value k (field j v rest) =
    let later = last_value k rest in or_else later (if str_eq k j then some v else none)

lookup-update :
    (k : String) (merged extra : Fields)
    → lookup k (update merged extra) ≡ or_else (last_value k extra) (lookup k merged)
unfolding update
lookup-update k merged end = refl
lookup-update k merged (field j v rest) =
    lookup-update k (set_field j v merged) rest
    ∙ ap (or_else (last_value k rest)) (lookup-set_field k j v merged)
    ∙ or_else_if (last_value k rest) (str_eq k j) v (lookup k merged)

abbrev pub given_value : String → Option Fields → Option Value
given_value key none = none
given_value key (some extra) = last_value key extra

-- Whatever is logged, each field of the record has the value that the caller gives, the last one where
-- there are several, or else the value of the context; the level and the message are the caller's.
pub log_with_context-lookup :
    (c : Context) (level : ℕ) (message : String) (extra : Option Fields) (key : String)
    → let call = log_with_context c level message extra in
      (lookup key call.extra ≡ or_else (given_value key extra) (lookup key (get_logging_context c)))
      × (call.level ≡ level)
      × (call.message ≡ message)
unfolding log_with_context
log_with_context-lookup c level message none key = (refl, refl, refl)
log_with_context-lookup c level message (some extra) key =
    (lookup-update key (get_logging_context c) extra, refl, refl)

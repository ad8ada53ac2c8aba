-- ===== src/StateTracking/Gate/Allowed.antt =====
-- What an allowlist lists, and when the retry gate is open.
use worker_template.Prelude.{
  String, ◌≡◌, refl, ◌≢◌, ◌↔◌, ◌⊎◌, Bool, true, false, not, ◌&&◌, List, [], ◌∷◌, map, arith, str_eq,
  eq_iff, filter, if◌then◌else◌,
}
use worker_template.Text.{strip, split_commas, contains}
use worker_template.Models.{Uuid}
use worker_template.World.{Env}
use worker_template.StateTracking.Gate.{allowlist, is_empty, retry_gate_allows}

-- Some item of the list is `x` once the space around it is removed.
abbrev pub Lists : String → List String → Type 0
Lists x [] = ⊥
Lists x (piece ∷ pieces) = (strip piece ≡ x) ⊎ Lists x pieces

-- The text names `x` between its commas.
abbrev pub IsListed : String → String → Type 0
IsListed x text = (x ≢ "") × Lists x (split_commas text)

abbrev kept : List String → List String
kept pieces = filter (λ value. not (str_eq value "")) (map strip pieces)

kept→Lists :
    (x : String) (pieces : List String)
    → contains x (kept pieces) ≡ true
    → (x ≢ "") × Lists x pieces
unfolding contains
kept→Lists x [] h = cc
kept→Lists x (piece ∷ pieces) h =
    ground (arith, eq_iff x (strip piece), eq_iff (strip piece) "", kept→Lists x pieces)

Lists→kept :
    (x : String) (pieces : List String) → x ≢ "" → Lists x pieces → contains x (kept pieces) ≡ true
unfolding contains
Lists→kept x [] n h = absurd h
Lists→kept x (piece ∷ pieces) n h =
    ground (arith, eq_iff x (strip piece), eq_iff (strip piece) "", Lists→kept x pieces n)

contains→nonempty : (x : String) (l : List String) → contains x l ≡ true → is_empty l ≡ false
unfolding contains
contains→nonempty x [] h = cc
contains→nonempty x (y ∷ l) h = refl

-- The ladder of tests, over any two lists.
abbrev gate : Bool → List String → List String → String → String → Bool
gate enabled tenants tasks x y =
    if not enabled
    then false
    else if is_empty tenants
    then false
    else if is_empty tasks
    then false
    else contains x tenants && contains y tasks

open_if :
    (enabled : Bool) (tenants tasks : List String) (x y : String)
    → gate enabled tenants tasks x y ≡ true
    → (enabled ≡ true) × (contains x tenants ≡ true) × (contains y tasks ≡ true)
open_if enabled tenants tasks x y h = ground arith

opens :
    (enabled : Bool) (tenants tasks : List String) (x y : String)
    → enabled ≡ true
    → contains x tenants ≡ true
    → contains y tasks ≡ true
    → gate enabled tenants tasks x y ≡ true
opens enabled tenants tasks x y e hx hy =
    ground (arith, contains→nonempty x tenants hx, contains→nonempty y tasks hy)

-- The gate allows a retry exactly when automatic retries are enabled, the tenant's UUID is named
-- between the commas of the tenant allowlist and the task's name between those of the task allowlist,
-- neither name being empty; space around the names in the lists does not count.
pub retry_gate_allows_iff :
    (env : Env) (task_name : String) (tenant_id : Uuid)
    → (retry_gate_allows env task_name tenant_id ≡ true) ↔ (
        (env.settings.task_retry_enabled ≡ true)
        × IsListed (env.uuid_text tenant_id) env.settings.task_retry_tenant_allowlist
        × IsListed task_name env.settings.task_retry_task_allowlist)
unfolding retry_gate_allows allowlist
retry_gate_allows_iff env task_name tenant_id = (
  λ h.
      let open_facts = open_if env.settings.task_retry_enabled _ _ _ _ h in
      (
        open_facts.0,
        kept→Lists (env.uuid_text tenant_id) _ open_facts.1,
        kept→Lists task_name _ open_facts.2,
      ),
  λ h.
      opens env.settings.task_retry_enabled _ _ _ _ h.0
        (Lists→kept (env.uuid_text tenant_id) _ h.1.0 h.1.1) (Lists→kept task_name _ h.2.0 h.2.1),
)

-- ===== src/StateTracking/Gate.antt =====
-- `_retry_gate_allows` of state_tracking.py.
pub mod Allowed
use worker_template.Prelude.{
  String, Bool, true, false, not, ◌&&◌, List, [], ◌∷◌, map, str_eq, filter, if◌then◌else◌,
}
use worker_template.Text.{strip, split_commas, contains}
use worker_template.Models.{Uuid}
use worker_template.World.{Env}

-- `{value.strip() for value in text.split(",") if value.strip()}`; only emptiness and membership of
-- the set are looked at.
unfoldable pub allowlist : String → List String
allowlist text = filter (λ value. not (str_eq value "")) (map strip (split_commas text))

abbrev pub is_empty {ℓ} : {A : Type ℓ} → List A → Bool
is_empty [] = true
is_empty (x ∷ xs) = false

unfoldable pub retry_gate_allows : Env → String → Uuid → Bool
retry_gate_allows env task_name tenant_id =
    if not env.settings.task_retry_enabled
    then false
    else if is_empty (allowlist env.settings.task_retry_tenant_allowlist)
    then false
    else if is_empty (allowlist env.settings.task_retry_task_allowlist)
    then false
    else contains (env.uuid_text tenant_id) (allowlist env.settings.task_retry_tenant_allowlist)
      && contains task_name (allowlist env.settings.task_retry_task_allowlist)

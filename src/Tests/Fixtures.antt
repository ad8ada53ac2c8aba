-- ===== src/Tests/Fixtures.antt =====
-- A concrete environment, a retry loop, a message and a database for the examples.
use worker_template.Message.{lookup}
use worker_template.Text.{contains, split_commas, strip}
use worker_template.StateTracking.Extract.{
  label, raw_entry, parse_uuid, candidates, first_parsed, extract_task_execution_id,
}
use worker_template.StateTracking.Gate.{allowlist, retry_gate_allows}
use worker_template.Prelude.{
  refl, ℕ, zero, suc, ◌+◌, String, ◌≡◌, true, false, none, some, List, [], ◌∷◌, str_eq,
  if◌then◌else◌,
}
use worker_template.Text.{str_nat}
use worker_template.Exec.{operational, failure, Result, ok, err, Exec}
use worker_template.Models.{running, TaskExecution}
use worker_template.Message.{
  uuid, plain, end, field, TaskiqMessage, TaskiqResult, raised, TaskException,
}
use worker_template.Config.{Settings, default_settings}
use worker_template.World.{Env, fine, fault, late, World}
use worker_template.Retry.{Tenacity}

-- The loop that runs an action at most as often as it is told.
module _ {S A : Type 0} where
  abbrev pub resume : Result A × S → (S → Result A × S) → Result A × S
  resume (ok a, s) f = (ok a, s)
  resume (err (operational x), s) f = f s
  resume (err (failure x), s) f = (err (failure x), s)

  abbrev pub retry_loop : ℕ → Exec S A → Exec S A
  retry_loop zero m s = m s
  retry_loop (suc zero) m s = m s
  retry_loop (suc (suc n)) m s = resume (m s) (retry_loop (suc n) m)

  pub loop_returns :
      (n : ℕ) (m : Exec S A) (s s' : S) (a : A)
      → m s ≡ (ok a, s')
      → retry_loop (suc n) m s ≡ (ok a, s')
  loop_returns zero m s s' a e = e
  loop_returns (suc n) m s s' a e = rw e

  pub loop_reraises :
      (n : ℕ) (m : Exec S A) (s s' : S) (x : String)
      → m s ≡ (err (failure x), s')
      → retry_loop (suc n) m s ≡ (err (failure x), s')
  loop_reraises zero m s s' x e = e
  loop_reraises (suc n) m s s' x e = rw e

  pub loop_again :
      (n : ℕ) (m : Exec S A) (s s' : S) (x : String)
      → m s ≡ (err (operational x), s')
      → retry_loop (suc (suc n)) m s ≡ retry_loop (suc n) m s'
  loop_again n m s s' x e = rw e

abbrev pub retry_of : (S : Type 0) → Tenacity S
retry_of S = record {
  retry = λ A n m. retry_loop n m;
  returns = λ A n m s s' a e. loop_returns n m s s' a e;
  reraises = λ A n m s s' x e. loop_reraises n m s s' x e;
  stops = λ A m s s' x e. e;
  again = λ A n m s s' x e. loop_again n m s s' x e;
}

abbrev pub settings : Settings
settings = record default_settings {
  task_retry_enabled = true;
  task_retry_shadow_mode = false;
  task_retry_tenant_allowlist = "4, 5 ,,6";
  task_retry_task_allowlist = " import ";
}

abbrev pub env : Env
env = record {
  settings = settings;
  uuid_of_text =
      λ text. if str_eq text "7" then some 7 else if str_eq text "100" then some 100 else none;
  uuid_text = str_nat;
  gen_random_uuid = λ n. n + 100;
  now = λ n. n + 1000;
}

-- The task 7 of the tenant 5.
abbrev pub message : TaskiqMessage
message = record {
  task_id = "m-1";
  task_name = "import";
  labels = field "task_execution_id" (plain "7") end;
  args = [];
  kwargs = field "tenant_id" (uuid 5) end;
}

abbrev pub boom : TaskException
boom = record { type_name = "ValueError"; text = "boom" }

abbrev pub task_with : ℕ → TaskExecution
task_with retry_count = record {
  id = 7;
  created_at = 900;
  updated_at = 900;
  task_name = "import";
  status = running;
  total_steps = none;
  completed_steps = 0;
  status_message = some "Task started";
  tenant_id = 5;
  parent_task_id = none;
  config_snapshot = none;
  result_url = none;
  error_detail = none;
  started_at = some 950;
  completed_at = none;
  retry_count = retry_count;
  max_retries = 3;
}

-- A row of another tenant.
abbrev pub other_task : TaskExecution
other_task = record (task_with 0) { id = 8; tenant_id = 4; created_at = 901 }

abbrev pub failed_result : TaskiqResult
failed_result = record { is_err = true; error = some (raised "boom"); shadow_retry = false }

abbrev pub world_with : List TaskExecution → World
world_with executions = record {
  committed = record { executions = executions; attempts = [] };
  tables = record { executions = executions; attempts = [] };
  sent = [];
  emitter = true;
  events = [];
  attempt = record {
    recorded_status = none;
    recorded_retry_count = none;
    status_message = none;
    attempt_number = none;
  };
  result = failed_result;
  schedule = [];
  tick = 0;
}

pub named_7 : extract_task_execution_id env message ≡ some 7
unfolding extract_task_execution_id candidates first_parsed label raw_entry parse_uuid lookup
named_7 = refl

pub gate_open_5 : retry_gate_allows env "import" 5 ≡ true
unfolding retry_gate_allows allowlist contains split_commas strip str_nat
gate_open_5 = refl

-- A world with the task 7 below its maximum of 3 retries, and a row of another tenant.
abbrev pub first_world : World
first_world = world_with (task_with 0 ∷ other_task ∷ [])

-- The same with one retry left.
abbrev pub last_world : World
last_world = world_with (task_with 2 ∷ other_task ∷ [])

-- The database loses its connection now and then.
abbrev pub flaky_world : World
flaky_world = record first_world {
  schedule = fine ∷ fault (operational "closed") ∷ fine ∷ late (operational "closed") ∷ [];
}

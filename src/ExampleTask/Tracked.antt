-- ===== src/ExampleTask/Tracked.antt =====
-- The message of a dispatch, and the row that is committed for it.
use worker_template.Prelude.{
  ℕ, ◌+◌, String, ◌≡◌, refl, ◌⊎◌, inl, inr, none, some, List, [], ◌∷◌, ◌++◌,
}
use worker_template.Exec.{Result, ok, err, pure, ◌>>=◌}
use worker_template.Models.{Uuid, TaskStatus, TaskExecution, Tables}
use worker_template.Message.{TaskiqMessage, lookup}
use worker_template.World.{
  Env, Outcome, fine, fault, late, World, effect, reading, with_session, flush, refresh, commit,
  kiq,
}
use worker_template.Services.TaskExecutionService.{default_task, create_task_execution}
use worker_template.StateTracking.Extract.{
  parse_uuid, label, raw_entry, candidates, first_parsed, extract_task_execution_id,
  extract_tenant_id,
}
use worker_template.ExampleTask.{
  model_dump, Registry, input_for, kicked_message, create_tracked, dispatch_example_task,
}

-- The row of a task that is dispatched: committed behind the others, of the tenant, PENDING and without
-- retries; its message is the last on the queue, and state tracking finds the row and the tenant in it.
pub record IsTracked (env : Env) (tenant_id : Uuid) (w w' : World) (row : TaskExecution)
    (message : TaskiqMessage) : Type 0 where
  pub committed :
      w'.committed ≡ record w.committed { executions = w.committed.executions ++ row ∷ [] }
  pub sent : w'.sent ≡ w.sent ++ message ∷ []
  pub named : extract_task_execution_id env message ≡ some row.id
  pub tenant : extract_tenant_id env message ≡ some tenant_id
  pub owner : row.tenant_id ≡ tenant_id
  pub is_new : row.status ≡ TaskStatus.pending
  pub unretried : row.retry_count ≡ 0
  pub retries_given : row.max_retries ≡ env.settings.task_max_retries

-- What a dispatch leaves: a tracked message where it returns; where it raises, the queue as it was, or
-- a tracked message all the same.
abbrev pub Dispatched : Env → Uuid → World → Result (TaskExecution × TaskiqMessage) × World → Type 0
Dispatched env tenant_id w (ok (row, message), w') = IsTracked env tenant_id w w' row message
Dispatched env tenant_id w (err e, w') =
    (w'.sent ≡ w.sent)
    ⊎ ((row : TaskExecution) × (message : TaskiqMessage) × IsTracked env tenant_id w w' row message)

module _ (env : Env) (registry : Registry) (tenant_id : Uuid)
    (document_url output_format : String) where
  message_named :
      (row : TaskExecution) (tick : ℕ)
      → extract_task_execution_id env (
          kicked_message env registry
            (input_for env registry tenant_id document_url output_format row)
            tick)
        ≡ some row.id
  unfolding extract_task_execution_id candidates first_parsed label raw_entry parse_uuid lookup
      model_dump kicked_message
  message_named row tick = refl

  message_tenant :
      (row : TaskExecution) (tick : ℕ)
      → extract_tenant_id env (
          kicked_message env registry
            (input_for env registry tenant_id document_url output_format row)
            tick)
        ≡ some tenant_id
  unfolding extract_tenant_id label raw_entry parse_uuid lookup model_dump kicked_message
  message_tenant row tick = refl

  abbrev pub new_row : World → TaskExecution
  new_row w = record {
    id = env.gen_random_uuid w.tick;
    created_at = env.now w.tick;
    updated_at = env.now w.tick;
    task_name = registry.task_name;
    status = TaskStatus.pending;
    total_steps = none;
    completed_steps = 0;
    status_message = none;
    tenant_id = tenant_id;
    parent_task_id = none;
    config_snapshot = none;
    result_url = none;
    error_detail = none;
    started_at = none;
    completed_at = none;
    retry_count = 0;
    max_retries = env.settings.task_max_retries;
  }

  abbrev new_tables : World → Tables
  new_tables w = record w.committed { executions = w.committed.executions ++ new_row w ∷ [] }

  abbrev pub new_message : World → TaskiqMessage
  new_message w =
      kicked_message env registry
        (input_for env registry tenant_id document_url output_format (new_row w)) (w.tick + 1)

  -- The world once the message is on the queue.
  abbrev pub sent_world : World → List Outcome → World
  sent_world w rest = record w {
    committed = new_tables w;
    tables = new_tables w;
    sent = w.sent ++ new_message w ∷ [];
    schedule = rest;
    tick = w.tick + 1 + 1;
  }

  pub tracked :
      (w : World) (rest : List Outcome)
      → IsTracked env tenant_id w (sent_world w rest) (new_row w) (new_message w)
  tracked w rest = record {
    committed = refl;
    sent = refl;
    named = message_named (new_row w) (w.tick + 1);
    tenant = message_tenant (new_row w) (w.tick + 1);
    owner = refl;
    is_new = refl;
    unretried = refl;
    retries_given = refl;
  }

  -- The dispatch where every call succeeds.
  pub dispatch_example_task-calm :
      (w : World)
      → dispatch_example_task env registry tenant_id document_url output_format
          (record w { schedule = [] })
        ≡ (ok (new_row w, new_message w), sent_world w [])
  unfolding dispatch_example_task create_tracked create_task_execution default_task with_session
      reading flush refresh commit kiq effect pure ◌>>=◌
  dispatch_example_task-calm w = refl

  dispatches :
      (w : World) (outcomes : List Outcome)
      → Dispatched env tenant_id w (
          dispatch_example_task env registry tenant_id document_url output_format
            (record w { schedule = outcomes }))
  unfolding dispatch_example_task create_tracked create_task_execution default_task with_session
      reading flush refresh commit kiq effect pure ◌>>=◌
  dispatches w [] = tracked w []
  dispatches w (fault x ∷ rest) = inl refl
  dispatches w (late x ∷ rest) = inl refl
  dispatches w (fine ∷ []) = tracked w []
  dispatches w (fine ∷ fault x ∷ rest) = inl refl
  dispatches w (fine ∷ late x ∷ rest) = inl refl
  dispatches w (fine ∷ fine ∷ []) = tracked w []
  dispatches w (fine ∷ fine ∷ fault x ∷ rest) = inl refl
  dispatches w (fine ∷ fine ∷ late x ∷ rest) = inl refl
  dispatches w (fine ∷ fine ∷ fine ∷ []) = tracked w []
  dispatches w (fine ∷ fine ∷ fine ∷ fault x ∷ rest) = inl refl
  dispatches w (fine ∷ fine ∷ fine ∷ late x ∷ rest) = inr (new_row w, new_message w, tracked w rest)
  dispatches w (fine ∷ fine ∷ fine ∷ fine ∷ rest) = tracked w rest

-- However the calls of the database and of the broker end, a message that `dispatch_example_task` puts
-- on the queue is tracked: a row is committed for it, PENDING, of the tenant, with no retry
-- counted and the maximum of the settings, and state tracking finds this row and this tenant in the
-- message. Where the dispatch returns, it has put one such message there; where it raises, it has put
-- none or one there.
pub dispatch_example_task-Dispatched :
    (env : Env) (registry : Registry) (tenant_id : Uuid) (document_url output_format : String)
    (w : World)
    → Dispatched env tenant_id w
        (dispatch_example_task env registry tenant_id document_url output_format w)
dispatch_example_task-Dispatched env registry tenant_id document_url output_format w =
    dispatches env registry tenant_id document_url output_format w w.schedule

-- ===== src/Tests/Deliveries.antt =====
-- Examples: the life of a task over several deliveries, and the failures that are not retried.
use worker_template.Prelude.{
  ◌+◌, ◌≤◌, List, length, some, filter, none, ◌≡◌, refl, true, [], ◌∷◌, map, arith, inl, inr,
}
use worker_template.Models.{TaskExecution, failed}
use worker_template.Exec.{failure, ok}
use worker_template.Message.{lookup}
use worker_template.Message.Json.{received_message}
use worker_template.Tests.Messages.{json}
use worker_template.World.{Env, fault, World}
use worker_template.StateTracking.Extract.{
  label, raw_entry, parse_uuid, candidates, first_parsed, extract_task_execution_id,
}
use worker_template.StateTracking.Gate.{allowlist, retry_gate_allows}
use worker_template.Text.{strip, split_commas, contains, str_nat}
use worker_template.StateTracking.Decision.{may_retry, gate_for}
use worker_template.StateTracking.Handlers.{post_execute, on_error}
use worker_template.StateTracking.Lifecycle.{Hook, pre, post, error, run_hooks}
use worker_template.StateTracking.Calm.Services.{calm}
use worker_template.StateTracking.Calm.OnRefused.{IsRefusable, IsRefused, on_error-IsRefused}
use worker_template.StateTracking.Calm.OnError.{IsRetriable}
use worker_template.StateTracking.Calm.Owned.{IsRetrying, on_error-post_execute}
use worker_template.StateTracking.Sends.Paid.{spent, allowed}
use worker_template.StateTracking.Sends.Budget.{run_hooks-sent}
use worker_template.StateTracking.Flaky.LostReply.{lost_reply}
use worker_template.StateTracking.Flaky.Recovered.{on_error_recovers}
use worker_template.StateTracking.Flaky.BrokerDown.{
  broker_down, IsUndispatched, on_error-IsUndispatched,
}
use worker_template.StateTracking.Flaky.Overwritten.{post_execute_after_undispatched}
use worker_template.Services.TaskExecutionService.{is_selected}
use worker_template.StateTracking.Spec.{life, Lives}
use worker_template.StateTracking.Spec.Later.{AreLater, run_hooks-AreLater}
use worker_template.StateTracking.Spec.Refined.{run_hooks-Refines}
use worker_template.StateTracking.Drive.{drive}
use worker_template.StateTracking.Drive.Ends.{IsOver, IsQueued, drive-IsQueued, drive-IsOver}
use worker_template.Tests.Receivers.{receiver, errors, queued_world, queued_IsAt, queued_IsWaiting}
use worker_template.Tests.Fixtures.{
  named_7, gate_open_5, retry_of, settings, env, message, boom, task_with, failed_result,
}

drive-IsOver_example : IsOver 7 3 (drive receiver errors 3 queued_world)
drive-IsOver_example =
    drive-IsOver receiver errors 3 _ 7 (task_with 1) queued_world queued_IsAt queued_IsWaiting
      (omega arith) (omega arith)

drive-IsQueued_example :
    IsQueued json (received_message json message) 7 3 (drive receiver errors 2 queued_world)
drive-IsQueued_example =
    drive-IsQueued receiver errors 2 _ 7 (task_with 1) queued_world queued_IsAt queued_IsWaiting
      (omega arith)

abbrev failing_hooks : List Hook
failing_hooks = pre message ∷ error message failed_result boom ∷ post message failed_result ∷ []

run_hooks-Refines_example :
    Lives
      (map life queued_world.committed.executions)
      (map life (run_hooks env (retry_of World) failing_hooks queued_world).committed.executions)
run_hooks-Refines_example =
    run_hooks-Refines env (retry_of World) failing_hooks queued_world
      (omega arith, (omega arith, tt))

-- The same settings in shadow mode, with no task allowed.
abbrev shadow_env : Env
shadow_env = record env {
  settings = record settings { task_retry_shadow_mode = true; task_retry_task_allowlist = "" };
}

shadow_IsRefusable : IsRefusable shadow_env message 7 (task_with 1) queued_world
unfolding extract_task_execution_id candidates first_parsed label raw_entry parse_uuid lookup
    gate_for retry_gate_allows allowlist contains split_commas strip str_nat
shadow_IsRefusable = record { named = refl; found = refl; shut = refl }

on_error-IsRefused_example :
    IsRefused shadow_env message boom 7
      (task_with 1)
      true
      true
      queued_world
      (on_error shadow_env (retry_of World) message boom (calm queued_world))
unfolding may_retry
on_error-IsRefused_example =
    on_error-IsRefused shadow_env (retry_of World) message boom 7 (task_with 1) queued_world
      shadow_IsRefusable

queued_IsRetriable : IsRetriable env message 7 (task_with 1) queued_world
queued_IsRetriable = record {
  named = named_7;
  below = omega arith;
  gate = gate_open_5;
  found = refl;
  settled = refl;
  unopened = refl;
}

on_error-post_execute_example :
    let left = record (on_error env (retry_of World) message boom (calm queued_world)).1 {
      schedule = fault (failure "closed") ∷ [];
    } in
    (post_execute env (retry_of World) message left ≡ (ok tt, left))
    × IsRetrying 7 (task_with 1) left
on_error-post_execute_example =
    on_error-post_execute env (retry_of World) message boom 7 (task_with 1) queued_world
      (fault (failure "closed") ∷ []) (inl queued_IsRetriable)

shadowed_post_execute :
    let left = (on_error shadow_env (retry_of World) message boom (calm queued_world)).1 in
    IsRetrying 7 (task_with 1) (record left { schedule = [] })
unfolding may_retry
shadowed_post_execute =
    (on_error-post_execute shadow_env (retry_of World) message boom 7 (task_with 1) queued_world []
      (inr (shadow_IsRefusable, refl, refl))).1

on_error-IsUndispatched_example :
    IsUndispatched env message boom 7
      (task_with 1)
      queued_world
      (on_error env (retry_of World) message boom (broker_down queued_world (failure "closed")))
on_error-IsUndispatched_example =
    on_error-IsUndispatched env (retry_of World) message boom 7 (task_with 1) queued_world
      (failure "closed") queued_IsRetriable

post_execute_after_undispatched_example :
    let failed_world =
      (on_error env
        (retry_of World)
        message
        boom
        (broker_down queued_world (failure "closed"))).1 in
    let (r, ended) = post_execute env (retry_of World) message failed_world in
    (r ≡ ok tt)
    × ((last : TaskExecution) × (filter (is_selected 7 none) ended.committed.executions ≡ last ∷ [])
        × (last.status ≡ failed)
        × (last.status_message ≡ some "Task failed")
        × (last.error_detail ≡ some "boom"))
post_execute_after_undispatched_example =
    post_execute_after_undispatched env (retry_of World) message boom 7 (task_with 1) queued_world
      (failure "closed") queued_IsRetriable refl refl refl

run_hooks-AreLater_example :
    AreLater
      (map life queued_world.committed.executions)
      (map life (run_hooks env (retry_of World) failing_hooks queued_world).committed.executions)
run_hooks-AreLater_example =
    run_hooks-AreLater env (retry_of World) failing_hooks queued_world
      (omega arith, (omega arith, tt))

on_error_recovers_example :
    on_error env (retry_of World) message boom (lost_reply queued_world "connection reset")
    ≡ on_error env (retry_of World) message boom (calm queued_world)
on_error_recovers_example =
    on_error_recovers env (retry_of World) message boom 7 (task_with 1) queued_world
      "connection reset" queued_IsRetriable (omega arith)

run_hooks-sent_example :
    let w' = run_hooks env (retry_of World) failing_hooks queued_world in
    (length w'.sent + spent queued_world.committed.executions
      ≤ length queued_world.sent + spent w'.committed.executions)
    × (length w'.sent + spent queued_world.committed.executions
        ≤ length queued_world.sent + allowed queued_world.committed.executions)
run_hooks-sent_example =
    run_hooks-sent env (retry_of World) failing_hooks queued_world (omega arith, (omega arith, tt))
      refl

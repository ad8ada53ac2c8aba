-- ===== src/StateTracking/Sends/Still.antt =====
-- The queue and the schedule over `pre_execute` and `post_execute`.
use worker_template.Prelude.{Option, none, some}
use worker_template.Exec.{◌>>◌}
use worker_template.Models.{Uuid, TaskStatus, running, completed, failed}
use worker_template.Message.{TaskiqMessage, TaskiqResult}
use worker_template.World.{Env, Worker, commit, with_session}
use worker_template.Services.TaskExecutionService.{StatusFields, update_task_status}
use worker_template.StateTracking.Handlers.{
  is_no_result, start_task, pre_body, finish_task, post_body,
}
use worker_template.StateTracking.Calm.Stays.{
  Stays, Stays-bind, Stays-if, Stays-pure, Stays-gets, Stays-with_session, Stays-commit,
  update_task_status-Stays, emit_status_event-Stays,
}
use worker_template.StateTracking.Sends.Quiet.{
  Quiet, Quiet-bind, Quiet-if, Quiet-pure, Quiet-gets, Quiet-commit,
}
use worker_template.StateTracking.Sends.Recording.{update_task_status-Quiet}
use worker_template.StateTracking.Sends.Refused.{emit_status_event-Quiet, with_session-Quiet}

-- A hook that only updates a status.
pub record IsStill {A : Type 0} (m : Worker A) : Type 0 where
  pub quiet : Quiet m
  pub stays : Stays m

module _ (env : Env) (message : TaskiqMessage) where
  status_session-IsStill :
      (id : Uuid) (status : TaskStatus) (given : StatusFields)
      → IsStill (with_session (update_task_status env id status given >> commit))
  status_session-IsStill id status given = record {
    quiet =
        with_session-Quiet _
          (Quiet-bind _ _ (update_task_status-Quiet env id status given) (λ _. Quiet-commit));
    stays =
        Stays-with_session _
          (Stays-bind _ _ (update_task_status-Stays env id status given) (λ _. Stays-commit));
  }

  pub pre_body-IsStill : (id : Option Uuid) → IsStill (pre_body env message id)
  unfolding pre_body start_task
  pre_body-IsStill none = record { quiet = Quiet-pure _; stays = Stays-pure _ }
  pre_body-IsStill (some id) =
      let session = status_session-IsStill id running _ in
      record {
        quiet = Quiet-bind _ _ session.quiet λ _.
            Quiet-bind _ _ (emit_status_event-Quiet env message running _ _) (λ _. Quiet-pure _);
        stays = Stays-bind _ _ session.stays λ _.
            Stays-bind _ _ (emit_status_event-Stays env message running _ _) (λ _. Stays-pure _);
      }

  finish_task-IsStill :
      (result : TaskiqResult) (id : Uuid) → IsStill (finish_task env message result id)
  unfolding finish_task
  finish_task-IsStill result id =
      let bad = status_session-IsStill id failed _ in
      let good = status_session-IsStill id completed _ in
      record {
        quiet =
            Quiet-if result.is_err _ _
              (Quiet-bind _ _ bad.quiet (λ _. emit_status_event-Quiet env message failed _ _))
              (Quiet-bind _ _ good.quiet (λ _. emit_status_event-Quiet env message completed _ _));
        stays =
            Stays-if result.is_err _ _
              (Stays-bind _ _ bad.stays (λ _. emit_status_event-Stays env message failed _ _))
              (Stays-bind _ _ good.stays (λ _. emit_status_event-Stays env message completed _ _));
      }

  pub post_body-IsStill : (id : Option Uuid) → IsStill (post_body env message id)
  unfolding post_body
  post_body-IsStill none = record { quiet = Quiet-pure _; stays = Stays-pure _ }
  post_body-IsStill (some id) = record {
    quiet = Quiet-bind _ _ (Quiet-gets _) λ result.
        Quiet-if (is_no_result result.error) _ _ (Quiet-pure _)
          (Quiet-if result.shadow_retry _ _ (Quiet-pure _) (finish_task-IsStill result id).quiet);
    stays = Stays-bind _ _ (Stays-gets _) λ result.
        Stays-if (is_no_result result.error) _ _ (Stays-pure _)
          (Stays-if result.shadow_retry _ _ (Stays-pure _) (finish_task-IsStill result id).stays);
  }

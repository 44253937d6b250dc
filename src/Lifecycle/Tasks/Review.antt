-- ===== src/Lifecycle/Tasks/Review.antt =====
-- src/app/modules/ai/lifecycle/tasks.py: T7 to T12, from the review of the plan to the end of the
-- task.
use carestechs_agent_orchest.Prelude.{
  ℕ, String, Bool, not, Option, none, some, require, when, conflict, ◌>>=◌, ◌>>◌,
}
use carestechs_agent_orchest.Enums.Lifecycle.{
  TaskStatus, ActorRole, ApprovalStage, ApprovalDecision,
}
use carestechs_agent_orchest.Lifecycle.Store.{
  Task, Ctx, Action, update_task, send_transition, insert_approval,
}
use carestechs_agent_orchest.Lifecycle.Matrix.{approval_matrix}
use carestechs_agent_orchest.Lifecycle.Tasks.Steps.{
  require_feedback, load_task, require_status, refresh, write_status, mirror_to_engine,
  matrix_or_forbidden, is_terminal,
}

module _ (ctx : Ctx) where
  -- T7
  unfoldable pub approve_plan : ℕ → String → ActorRole → Bool → Option ℕ → Bool → Action Task
  unfolding load_task update_task insert_approval send_transition approval_matrix
  approve_plan id actor actor_role solo_dev corr skip_aux_write = do
    task ← load_task id
    require_status TaskStatus.plan_review task
    matrix_or_forbidden id ApprovalStage.plan actor_role solo_dev
    when (not skip_aux_write) (
        insert_approval (record {
          task_id = id;
          stage = ApprovalStage.plan;
          decision = ApprovalDecision.approve;
          decided_by = actor;
          decided_by_role = actor_role;
          feedback = none;
        }))
    write_status ctx id TaskStatus.implementing
    mirror_to_engine ctx task TaskStatus.implementing corr actor
    refresh id

  -- T8
  unfoldable pub reject_plan : ℕ → String → ActorRole → String → Bool → Option ℕ → Action Task
  unfolding load_task update_task insert_approval send_transition approval_matrix
  reject_plan id actor actor_role feedback solo_dev corr = do
    require_feedback (some feedback)
    task ← load_task id
    require_status TaskStatus.plan_review task
    matrix_or_forbidden id ApprovalStage.plan actor_role solo_dev
    insert_approval (record {
      task_id = id;
      stage = ApprovalStage.plan;
      decision = ApprovalDecision.reject;
      decided_by = actor;
      decided_by_role = actor_role;
      feedback = some feedback;
    })
    write_status ctx id TaskStatus.planning
    mirror_to_engine ctx task TaskStatus.planning corr actor
    refresh id

  -- T9
  unfoldable pub submit_implementation : ℕ → String → Option ℕ → Action Task
  unfolding load_task update_task send_transition
  submit_implementation id submitted_by corr = do
    task ← load_task id
    require_status TaskStatus.implementing task
    write_status ctx id TaskStatus.impl_review
    mirror_to_engine ctx task TaskStatus.impl_review corr submitted_by
    refresh id

  -- T10
  unfoldable pub approve_review : ℕ → String → ActorRole → Bool → Option ℕ → Bool → Action Task
  unfolding load_task update_task insert_approval send_transition approval_matrix
  approve_review id actor actor_role solo_dev corr skip_aux_write = do
    task ← load_task id
    require_status TaskStatus.impl_review task
    matrix_or_forbidden id ApprovalStage.impl actor_role solo_dev
    when (not skip_aux_write) (
        insert_approval (record {
          task_id = id;
          stage = ApprovalStage.impl;
          decision = ApprovalDecision.approve;
          decided_by = actor;
          decided_by_role = actor_role;
          feedback = none;
        }))
    write_status ctx id TaskStatus.done
    mirror_to_engine ctx task TaskStatus.done corr actor
    refresh id

  -- T11
  unfoldable pub reject_review : ℕ → String → ActorRole → String → Bool → Option ℕ → Action Task
  unfolding load_task update_task insert_approval send_transition approval_matrix
  reject_review id actor actor_role feedback solo_dev corr = do
    require_feedback (some feedback)
    task ← load_task id
    require_status TaskStatus.impl_review task
    matrix_or_forbidden id ApprovalStage.impl actor_role solo_dev
    insert_approval (record {
      task_id = id;
      stage = ApprovalStage.impl;
      decision = ApprovalDecision.reject;
      decided_by = actor;
      decided_by_role = actor_role;
      feedback = some feedback;
    })
    write_status ctx id TaskStatus.implementing
    mirror_to_engine ctx task TaskStatus.implementing corr actor
    refresh id

  -- T12
  unfoldable pub defer_task : ℕ → String → Option ℕ → Action Task
  unfolding load_task update_task send_transition
  defer_task id actor corr = do
    task ← load_task id
    require (not (is_terminal task.status)) conflict
    write_status ctx id TaskStatus.deferred
    mirror_to_engine ctx task TaskStatus.deferred corr actor
    refresh id

-- ===== src/Lifecycle/Signals/Planning.antt =====
-- src/app/modules/ai/lifecycle/service.py: S5 to S8 and S14, the signals up to a task's plan.
use carestechs_agent_orchest.Prelude.{
  ℕ, String, not, if◌then◌else◌, Bool, true, false, Option, none, some, is_some, is_none, [], ◌∷◌,
  when, pure, ◌>>=◌, ◌>>◌,
}
use carestechs_agent_orchest.Enums.Lifecycle.{
  ActorRole, AssigneeType, assignee_type_value, ApprovalStage, ApprovalDecision,
}
use carestechs_agent_orchest.Lifecycle.Store.{Task, AuxPayload, Ctx, Action, commit, insert_plan}
use carestechs_agent_orchest.Lifecycle.Tasks.{
  load_task, approve_task, reject_task_proposal, assign_task, submit_plan, defer_task,
}
use carestechs_agent_orchest.Lifecycle.WorkItems.{
  maybe_advance_to_in_progress, maybe_advance_to_ready,
}
use carestechs_agent_orchest.Lifecycle.Idempotency.{compute_signal_key, check_and_record}
use carestechs_agent_orchest.Lifecycle.Signals.Common.{with_correlation, enqueue_aux, task_text}

module _ (ctx : Ctx) where
  -- S5
  unfoldable pub approve_task_signal : ℕ → String → Action (Task × Bool)
  approve_task_signal id actor = do
    let key = compute_signal_key ctx id "approve-task" ([])
    (is_new, _) ← check_and_record ctx key id "approve-task"
    if not is_new then (do task ← load_task id; pure (task, false)) else do
      corr ←
          with_correlation ctx "approve-task"
            (("actor", some actor) ∷ ("taskId", some (task_text ctx id)) ∷ [])
      task ← approve_task ctx id actor (some corr) (is_some ctx.engine)
      enqueue_aux ctx corr "approve-task" id (
          AuxPayload.approval ApprovalStage.proposed ApprovalDecision.approve actor ActorRole.admin
            none)
      maybe_advance_to_in_progress ctx task.work_item_id none
      commit
      pure (task, true)

  -- S6. A rejection has no engine transition and no outbox row.
  unfoldable pub reject_task_signal : ℕ → String → String → Action (Task × Bool)
  reject_task_signal id feedback actor = do
    let key = compute_signal_key ctx id "reject-task" (("feedback", some feedback) ∷ [])
    (is_new, _) ← check_and_record ctx key id "reject-task"
    if not is_new then (do task ← load_task id; pure (task, false)) else do
      with_correlation ctx "reject-task"
          (("feedback", some feedback) ∷ ("taskId", some (task_text ctx id)) ∷ [])
      task ← reject_task_proposal ctx id actor feedback
      commit
      pure (task, true)

  -- S7. The assignment row is not part of the answer here.
  unfoldable pub assign_task_signal : ℕ → AssigneeType → String → String → Action (Task × Bool)
  assign_task_signal id assignee_type assignee_id actor = do
    let key = compute_signal_key ctx id "assign-task" (
        ("assigneeId", some assignee_id)
        ∷ ("assigneeType", some (assignee_type_value assignee_type))
        ∷ [])
    (is_new, _) ← check_and_record ctx key id "assign-task"
    if not is_new then (do task ← load_task id; pure (task, false)) else do
      corr ← with_correlation ctx "assign-task" (
          ("assigneeId", some assignee_id)
          ∷ ("assigneeType", some (assignee_type_value assignee_type))
          ∷ ("taskId", some (task_text ctx id))
          ∷ [])
      task ← assign_task ctx id assignee_type assignee_id actor (some corr) (is_some ctx.engine)
      enqueue_aux ctx corr "assign-task" id
          (AuxPayload.task_assignment assignee_type assignee_id actor)
      commit
      pure (task, true)

  -- S14
  unfoldable pub defer_task_signal : ℕ → Option String → String → Action (Task × Bool)
  defer_task_signal id reason actor = do
    let key = compute_signal_key ctx id "defer-task" (("reason", reason) ∷ [])
    (is_new, _) ← check_and_record ctx key id "defer-task"
    if not is_new then (do task ← load_task id; pure (task, false)) else do
      corr ←
          with_correlation ctx "defer-task"
            (("reason", reason) ∷ ("taskId", some (task_text ctx id)) ∷ [])
      task ← defer_task ctx id actor (some corr)
      maybe_advance_to_ready ctx task.work_item_id none
      commit
      pure (task, true)

  -- S8
  unfoldable pub submit_plan_signal : ℕ → String → String → String → Action (Task × Bool)
  submit_plan_signal id plan_path plan_sha actor = do
    let key =
        compute_signal_key ctx id "submit-plan"
          (("planPath", some plan_path) ∷ ("planSha", some plan_sha) ∷ [])
    (is_new, _) ← check_and_record ctx key id "submit-plan"
    if not is_new then (do task ← load_task id; pure (task, false)) else do
      corr ← with_correlation ctx "submit-plan" (
          ("planPath", some plan_path)
          ∷ ("planSha", some plan_sha)
          ∷ ("submittedBy", some actor)
          ∷ ("taskId", some (task_text ctx id))
          ∷ [])
      task ← submit_plan ctx id actor (some corr)
      enqueue_aux ctx corr "submit-plan" id (AuxPayload.task_plan plan_path plan_sha actor)
      when (is_none ctx.engine) (
          insert_plan (record {
            task_id = id;
            plan_path = plan_path;
            plan_sha = plan_sha;
            submitted_by = actor;
          }))
      commit
      pure (task, true)

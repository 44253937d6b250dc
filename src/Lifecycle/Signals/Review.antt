-- ===== src/Lifecycle/Signals/Review.antt =====
-- src/app/modules/ai/lifecycle/service.py: S9 to S13, the signals on a task's plan and
-- implementation.
use carestechs_agent_orchest.Prelude.{
  ℕ, String, not, if◌then◌else◌, Bool, true, false, Option, none, some, is_some, is_none, [], ◌∷◌,
  when, pure, ◌>>=◌, ◌>>◌,
}
use carestechs_agent_orchest.Enums.Lifecycle.{
  ActorRole, actor_role_value, ApprovalStage, ApprovalDecision,
}
use carestechs_agent_orchest.Lifecycle.Store.{
  Task, AuxPayload, Ctx, Action, commit, insert_implementation,
}
use carestechs_agent_orchest.Lifecycle.Tasks.{
  load_task, approve_plan, reject_plan, submit_implementation, approve_review, reject_review,
}
use carestechs_agent_orchest.Lifecycle.WorkItems.{maybe_advance_to_ready}
use carestechs_agent_orchest.Lifecycle.Idempotency.{compute_signal_key, check_and_record}
use carestechs_agent_orchest.Lifecycle.Signals.Common.{with_correlation, enqueue_aux, task_text}

module _ (ctx : Ctx) where
  -- S9
  unfoldable pub approve_plan_signal : ℕ → String → ActorRole → Bool → Action (Task × Bool)
  approve_plan_signal id actor actor_role solo_dev = do
    let key =
        compute_signal_key ctx id "approve-plan"
          (("actorRole", some (actor_role_value actor_role)) ∷ [])
    (is_new, _) ← check_and_record ctx key id "approve-plan"
    if not is_new then (do task ← load_task id; pure (task, false)) else do
      corr ← with_correlation ctx "approve-plan" (
          ("actor", some actor)
          ∷ ("actorRole", some (actor_role_value actor_role))
          ∷ ("taskId", some (task_text ctx id))
          ∷ [])
      task ← approve_plan ctx id actor actor_role solo_dev (some corr) (is_some ctx.engine)
      enqueue_aux ctx corr "approve-plan" id
          (AuxPayload.approval ApprovalStage.plan ApprovalDecision.approve actor actor_role none)
      commit
      pure (task, true)

  -- S10
  unfoldable pub reject_plan_signal : ℕ → String → String → ActorRole → Bool → Action (Task × Bool)
  reject_plan_signal id feedback actor actor_role solo_dev = do
    let key =
        compute_signal_key ctx id "reject-plan"
          (("actorRole", some (actor_role_value actor_role)) ∷ ("feedback", some feedback) ∷ [])
    (is_new, _) ← check_and_record ctx key id "reject-plan"
    if not is_new then (do task ← load_task id; pure (task, false)) else do
      corr ← with_correlation ctx "reject-plan" (
          ("actorRole", some (actor_role_value actor_role))
          ∷ ("feedback", some feedback)
          ∷ ("taskId", some (task_text ctx id))
          ∷ [])
      task ← reject_plan ctx id actor actor_role feedback solo_dev (some corr)
      commit
      pure (task, true)

  -- S11, without a GitHub client.
  unfoldable pub submit_implementation_signal :
      ℕ → Option String → String → String → String → Action (Task × Bool)
  submit_implementation_signal id pr_url commit_sha summary actor = do
    let key =
        compute_signal_key ctx id "submit-implementation"
          (("commitSha", some commit_sha) ∷ ("prUrl", pr_url) ∷ ("summary", some summary) ∷ [])
    (is_new, _) ← check_and_record ctx key id "submit-implementation"
    if not is_new then (do task ← load_task id; pure (task, false)) else do
      corr ← with_correlation ctx "submit-implementation" (
          ("commitSha", some commit_sha)
          ∷ ("prUrl", pr_url)
          ∷ ("summary", some summary)
          ∷ ("taskId", some (task_text ctx id))
          ∷ [])
      task ← submit_implementation ctx id actor (some corr)
      enqueue_aux ctx corr "submit-implementation" id
          (AuxPayload.task_implementation pr_url commit_sha summary actor)
      when (is_none ctx.engine) (
          insert_implementation (record {
            task_id = id;
            pr_url = pr_url;
            commit_sha = commit_sha;
            summary = summary;
            submitted_by = actor;
          }))
      commit
      pure (task, true)

  -- S12, without a GitHub client.
  unfoldable pub approve_review_signal : ℕ → String → ActorRole → Bool → Action (Task × Bool)
  approve_review_signal id actor actor_role solo_dev = do
    let key =
        compute_signal_key ctx id "approve-review"
          (("actorRole", some (actor_role_value actor_role)) ∷ [])
    (is_new, _) ← check_and_record ctx key id "approve-review"
    if not is_new then (do task ← load_task id; pure (task, false)) else do
      corr ← with_correlation ctx "approve-review" (
          ("actor", some actor)
          ∷ ("actorRole", some (actor_role_value actor_role))
          ∷ ("taskId", some (task_text ctx id))
          ∷ [])
      task ← approve_review ctx id actor actor_role solo_dev (some corr) (is_some ctx.engine)
      enqueue_aux ctx corr "approve-review" id
          (AuxPayload.approval ApprovalStage.impl ApprovalDecision.approve actor actor_role none)
      maybe_advance_to_ready ctx task.work_item_id none
      commit
      pure (task, true)

  -- S13, without a GitHub client.
  unfoldable pub reject_review_signal :
      ℕ → String → String → ActorRole → Bool → Action (Task × Bool)
  reject_review_signal id feedback actor actor_role solo_dev = do
    let key =
        compute_signal_key ctx id "reject-review"
          (("actorRole", some (actor_role_value actor_role)) ∷ ("feedback", some feedback) ∷ [])
    (is_new, _) ← check_and_record ctx key id "reject-review"
    if not is_new then (do task ← load_task id; pure (task, false)) else do
      corr ← with_correlation ctx "reject-review" (
          ("actorRole", some (actor_role_value actor_role))
          ∷ ("feedback", some feedback)
          ∷ ("taskId", some (task_text ctx id))
          ∷ [])
      task ← reject_review ctx id actor actor_role feedback solo_dev (some corr)
      commit
      pure (task, true)

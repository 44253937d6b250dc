-- ===== src/Lifecycle/Transitions/Operations.antt =====
-- The transitions T2 to T12 as one type of requests on a task, and what is asked of each.
use carestechs_agent_orchest.Prelude.{
  ℕ, String, Bool, true, Option, none, some, is_blank, is_none, not, if◌then◌else◌, Result, ok, err,
  not_found, conflict, validation,
}
use carestechs_agent_orchest.Enums.Lifecycle.{
  TaskStatus, ActorRole, AssigneeType, ApprovalStage, same_actor_role,
}
use carestechs_agent_orchest.Lifecycle.Store.{Task, Ctx, Action, Db, find_task}
use carestechs_agent_orchest.Lifecycle.Matrix.{approval_matrix}
use carestechs_agent_orchest.Lifecycle.Tasks.{
  approve_task, reject_task_proposal, assign_task, submit_plan, approve_plan, reject_plan,
  submit_implementation, approve_review, reject_review, defer_task, find_active, with_status,
  touched,
}

pub data TaskOp : Type 0 where
  approve : String → Option ℕ → Bool → TaskOp
  reject : String → String → TaskOp
  assign : AssigneeType → String → String → Option ℕ → Bool → TaskOp
  plan : String → Option ℕ → TaskOp
  plan_approval : String → ActorRole → Bool → Option ℕ → Bool → TaskOp
  plan_rejection : String → ActorRole → String → Bool → Option ℕ → TaskOp
  implementation : String → Option ℕ → TaskOp
  review_approval : String → ActorRole → Bool → Option ℕ → Bool → TaskOp
  review_rejection : String → ActorRole → String → Bool → Option ℕ → TaskOp
  defer : String → Option ℕ → TaskOp

-- The call that serves the request.
unfoldable pub perform : Ctx → ℕ → TaskOp → Action Task
perform ctx id (approve actor corr skip) = approve_task ctx id actor corr skip
perform ctx id (reject actor feedback) = reject_task_proposal ctx id actor feedback
perform ctx id (assign kind assignee by corr skip) = assign_task ctx id kind assignee by corr skip
perform ctx id (plan by corr) = submit_plan ctx id by corr
perform ctx id (plan_approval actor role solo corr skip) =
    approve_plan ctx id actor role solo corr skip
perform ctx id (plan_rejection actor role feedback solo corr) =
    reject_plan ctx id actor role feedback solo corr
perform ctx id (implementation by corr) = submit_implementation ctx id by corr
perform ctx id (review_approval actor role solo corr skip) =
    approve_review ctx id actor role solo corr skip
perform ctx id (review_rejection actor role feedback solo corr) =
    reject_review ctx id actor role feedback solo corr
perform ctx id (defer actor corr) = defer_task ctx id actor corr

-- The status that a request leads to from a status, if it is allowed there, after the first line of
-- each transition's docstring. For the rejections T8 and T11 the module's docstring and
-- docs/flows/feat-006-signal-flow.md say that the status stays; the code moves the task back.
unfoldable pub target : TaskOp → TaskStatus → Option TaskStatus
target (approve _ _ _) TaskStatus.proposed = some TaskStatus.assigning
target (reject _ _) TaskStatus.proposed = some TaskStatus.proposed
target (assign _ _ _ _ _) TaskStatus.assigning = some TaskStatus.planning
target (plan _ _) TaskStatus.planning = some TaskStatus.plan_review
target (plan_approval _ _ _ _ _) TaskStatus.plan_review = some TaskStatus.implementing
target (plan_rejection _ _ _ _ _) TaskStatus.plan_review = some TaskStatus.planning
target (implementation _ _) TaskStatus.implementing = some TaskStatus.impl_review
target (review_approval _ _ _ _ _) TaskStatus.impl_review = some TaskStatus.done
target (review_rejection _ _ _ _ _) TaskStatus.impl_review = some TaskStatus.implementing
target (defer _ _) TaskStatus.done = none
target (defer _ _) TaskStatus.deferred = none
target (defer _ _) status = some TaskStatus.deferred
target _ _ = none

-- A rejection wants a reason.
unfoldable pub gives_reason : TaskOp → Bool
unfolding is_blank
gives_reason (reject _ feedback) = not (is_blank feedback)
gives_reason (plan_rejection _ _ feedback _ _) = not (is_blank feedback)
gives_reason (review_rejection _ _ feedback _ _) = not (is_blank feedback)
gives_reason _ = true

-- A decision on a plan or on an implementation wants the role that the approval matrix names.
unfoldable pub may_decide : ℕ → TaskOp → Db → Bool
unfolding approval_matrix
may_decide id (plan_approval _ role solo _ _) db =
    same_actor_role role (approval_matrix (find_active id db) ApprovalStage.plan solo)
may_decide id (plan_rejection _ role _ solo _) db =
    same_actor_role role (approval_matrix (find_active id db) ApprovalStage.plan solo)
may_decide id (review_approval _ role solo _ _) db =
    same_actor_role role (approval_matrix (find_active id db) ApprovalStage.impl solo)
may_decide id (review_rejection _ role _ solo _) db =
    same_actor_role role (approval_matrix (find_active id db) ApprovalStage.impl solo)
may_decide id _ db = true

-- The task after an allowed request: the engine, where there is one, owns the status.
unfoldable pub settled : Ctx → TaskOp → TaskStatus → Task → Task
settled ctx (reject _ _) status t = touched ctx.now t
settled ctx _ status t = if is_none ctx.engine then with_status ctx.now status t else t

-- What a request is answered.
unfoldable pub answer : Ctx → ℕ → TaskOp → Db → Result Task
answer ctx id op db =
    if gives_reason op
    then elim (find_task id db) [
      | none ↦ err not_found
      | some t ↦ elim (target op t.status) [
        | none ↦ err conflict
        | some status ↦ if may_decide id op db then ok (settled ctx op status t) else err conflict
      ]
    ]
    else err validation

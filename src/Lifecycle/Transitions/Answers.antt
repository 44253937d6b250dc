-- ===== src/Lifecycle/Transitions/Answers.antt =====
-- Every task transition answers as the table of targets, the approval matrix and the need for a reason
-- say.
use carestechs_agent_orchest.Prelude.{
  ℕ, String, ◌≡◌, refl, Bool, false, Option, arith, find-update, find, update, List, map, any, [],
  ◌∷◌,
}
use mathlib.Core.Option
use carestechs_agent_orchest.Enums.Lifecycle.{TaskStatus, ActorRole, AssigneeType}
use carestechs_agent_orchest.Lifecycle.Store.{
  Task, Ctx, Session, find_task, is_task, is_active, TaskAssignment,
}
use carestechs_agent_orchest.Lifecycle.Tasks
use carestechs_agent_orchest.Lifecycle.Tasks.{with_status, touched, supersede}
use carestechs_agent_orchest.Lifecycle.Transitions.Operations.{
  TaskOp, target, perform, approve, reject, assign, plan, plan_approval, plan_rejection,
  implementation, review_approval, review_rejection, defer, answer, gives_reason, may_decide,
  settled,
}

-- After a write of the status the task is found with that status.
pub refind :
    (id now : ℕ) (to : TaskStatus) (ts : List Task)
    → find (is_task id) (update (is_task id) (with_status now to) ts)
      ≡ Option.map (with_status now to) (find (is_task id) ts)
refind id now to ts = find-update (is_task id) (with_status now to) ts (λ u h. ground arith)

pub refind_touched :
    (id now : ℕ) (ts : List Task)
    → find (is_task id) (update (is_task id) (touched now) ts)
      ≡ Option.map (touched now) (find (is_task id) ts)
refind_touched id now ts = find-update (is_task id) (touched now) ts (λ u h. h)

-- No assignment of the task stays active once the active one is superseded.
pub superseded_inactive :
    (ctx : Ctx) (id : ℕ) (xs : List TaskAssignment)
    → any (is_active id) (map (supersede ctx id) xs) ≡ false
unfolding any
superseded_inactive ctx id [] = refl
superseded_inactive ctx id (x ∷ xs) = ground (arith, superseded_inactive ctx id xs)

module _ (ctx : Ctx) (id : ℕ) (s : Session) where
  answer-approve :
      (actor : String) (corr : Option ℕ) (skip : Bool)
      → (Tasks.approve_task ctx id actor corr skip s).0
        ≡ answer ctx id (approve actor corr skip) s.db
  unfolding answer target gives_reason may_decide settled find_task Tasks.approve_task
  answer-approve actor corr skip = ground (arith, refind id ctx.now TaskStatus.assigning s.db.tasks)

  answer-reject :
      (actor feedback : String)
      → (Tasks.reject_task_proposal ctx id actor feedback s).0
        ≡ answer ctx id (reject actor feedback) s.db
  unfolding answer target gives_reason may_decide settled find_task Tasks.reject_task_proposal
  answer-reject actor feedback = ground (arith, refind_touched id ctx.now s.db.tasks)

  answer-assign :
      (kind : AssigneeType) (assignee by : String) (corr : Option ℕ) (skip : Bool)
      → (Tasks.assign_task ctx id kind assignee by corr skip s).0
        ≡ answer ctx id (assign kind assignee by corr skip) s.db
  unfolding answer target gives_reason may_decide settled find_task Tasks.assign_task
  answer-assign kind assignee by corr skip = ground (
    arith,
    refind id ctx.now TaskStatus.planning s.db.tasks,
    superseded_inactive ctx id s.db.assignments,
  )

  answer-plan :
      (by : String) (corr : Option ℕ)
      → (Tasks.submit_plan ctx id by corr s).0 ≡ answer ctx id (plan by corr) s.db
  unfolding answer target gives_reason may_decide settled find_task Tasks.submit_plan
  answer-plan by corr = ground (arith, refind id ctx.now TaskStatus.plan_review s.db.tasks)

  answer-plan_approval :
      (actor : String) (role : ActorRole) (solo : Bool) (corr : Option ℕ) (skip : Bool)
      → (Tasks.approve_plan ctx id actor role solo corr skip s).0
        ≡ answer ctx id (plan_approval actor role solo corr skip) s.db
  unfolding answer target gives_reason may_decide settled find_task Tasks.approve_plan
  answer-plan_approval actor role solo corr skip =
      ground (arith, refind id ctx.now TaskStatus.implementing s.db.tasks)

  answer-plan_rejection :
      (actor : String) (role : ActorRole) (feedback : String) (solo : Bool) (corr : Option ℕ)
      → (Tasks.reject_plan ctx id actor role feedback solo corr s).0
        ≡ answer ctx id (plan_rejection actor role feedback solo corr) s.db
  unfolding answer target gives_reason may_decide settled find_task Tasks.reject_plan
  answer-plan_rejection actor role feedback solo corr =
      ground (arith, refind id ctx.now TaskStatus.planning s.db.tasks)

  answer-implementation :
      (by : String) (corr : Option ℕ)
      → (Tasks.submit_implementation ctx id by corr s).0
        ≡ answer ctx id (implementation by corr) s.db
  unfolding answer target gives_reason may_decide settled find_task Tasks.submit_implementation
  answer-implementation by corr =
      ground (arith, refind id ctx.now TaskStatus.impl_review s.db.tasks)

  answer-review_approval :
      (actor : String) (role : ActorRole) (solo : Bool) (corr : Option ℕ) (skip : Bool)
      → (Tasks.approve_review ctx id actor role solo corr skip s).0
        ≡ answer ctx id (review_approval actor role solo corr skip) s.db
  unfolding answer target gives_reason may_decide settled find_task Tasks.approve_review
  answer-review_approval actor role solo corr skip =
      ground (arith, refind id ctx.now TaskStatus.done s.db.tasks)

  answer-review_rejection :
      (actor : String) (role : ActorRole) (feedback : String) (solo : Bool) (corr : Option ℕ)
      → (Tasks.reject_review ctx id actor role feedback solo corr s).0
        ≡ answer ctx id (review_rejection actor role feedback solo corr) s.db
  unfolding answer target gives_reason may_decide settled find_task Tasks.reject_review
  answer-review_rejection actor role feedback solo corr =
      ground (arith, refind id ctx.now TaskStatus.implementing s.db.tasks)

  answer-defer :
      (actor : String) (corr : Option ℕ)
      → (Tasks.defer_task ctx id actor corr s).0 ≡ answer ctx id (defer actor corr) s.db
  unfolding answer target gives_reason may_decide settled find_task Tasks.defer_task
  answer-defer actor corr = ground (arith, refind id ctx.now TaskStatus.deferred s.db.tasks)

  -- Whatever the request and whether or not there is an engine, the answer of the call is that of
  -- the specification: `validation` for a rejection with a blank reason, `not_found` for an unknown
  -- task, `conflict` where the table of targets has no such edge or the role is not the matrix's, and
  -- otherwise the task, at the table's target if there is no engine and at its old status if there
  -- is one. The table has a rejected plan lead back to planning and a rejected implementation back to
  -- implementing, as the code does and the docstring of each function says; the module's docstring and
  -- the flow document have the task stay where it is.
  pub perform-answer : (op : TaskOp) → (perform ctx id op s).0 ≡ answer ctx id op s.db
  unfolding perform
  perform-answer (approve actor corr skip) = answer-approve actor corr skip
  perform-answer (reject actor feedback) = answer-reject actor feedback
  perform-answer (assign kind assignee by corr skip) = answer-assign kind assignee by corr skip
  perform-answer (plan by corr) = answer-plan by corr
  perform-answer (plan_approval actor role solo corr skip) =
      answer-plan_approval actor role solo corr skip
  perform-answer (plan_rejection actor role feedback solo corr) =
      answer-plan_rejection actor role feedback solo corr
  perform-answer (implementation by corr) = answer-implementation by corr
  perform-answer (review_approval actor role solo corr skip) =
      answer-review_approval actor role solo corr skip
  perform-answer (review_rejection actor role feedback solo corr) =
      answer-review_rejection actor role feedback solo corr
  perform-answer (defer actor corr) = answer-defer actor corr

-- ===== src/Lifecycle/Delivery/TaskFrames.antt =====
-- The task transitions keep every invariant that does not speak of tasks.
use carestechs_agent_orchest.Prelude.{
  ℕ, String, Bool, Option, ◌++◌, arith, Keeps, ◌≡◌, sym, subst, Result, ok, err,
}
use carestechs_agent_orchest.Enums.Lifecycle.{ActorRole, AssigneeType}
use carestechs_agent_orchest.Lifecycle.Store.{Task, Db, Session, Ctx}
use carestechs_agent_orchest.Lifecycle.Tasks
use carestechs_agent_orchest.Lifecycle.Transitions.Operations.{
  TaskOp, approve, reject, assign, plan, plan_approval, plan_rejection, implementation,
  review_approval, review_rejection, defer, perform,
}
use carestechs_agent_orchest.Lifecycle.Transitions.Effects.{
  effect, rewritten, reassigned, decision, outcome, perform-effect,
}
use carestechs_agent_orchest.Lifecycle.Delivery.Frames.{IgnoresTasks, Both}

-- A transition commits nothing.
module _ (ctx : Ctx) (id : ℕ) (s : Session) where
  committed-approve :
      (actor : String) (corr : Option ℕ) (skip : Bool)
      → (Tasks.approve_task ctx id actor corr skip s).1.committed ≡ s.committed
  unfolding Tasks.approve_task
  committed-approve actor corr skip = ground arith

  committed-reject :
      (actor feedback : String)
      → (Tasks.reject_task_proposal ctx id actor feedback s).1.committed ≡ s.committed
  unfolding Tasks.reject_task_proposal
  committed-reject actor feedback = ground arith

  committed-assign :
      (kind : AssigneeType) (assignee by : String) (corr : Option ℕ) (skip : Bool)
      → (Tasks.assign_task ctx id kind assignee by corr skip s).1.committed ≡ s.committed
  unfolding Tasks.assign_task
  committed-assign kind assignee by corr skip = ground arith

  committed-plan :
      (by : String) (corr : Option ℕ)
      → (Tasks.submit_plan ctx id by corr s).1.committed ≡ s.committed
  unfolding Tasks.submit_plan
  committed-plan by corr = ground arith

  committed-plan_approval :
      (actor : String) (role : ActorRole) (solo : Bool) (corr : Option ℕ) (skip : Bool)
      → (Tasks.approve_plan ctx id actor role solo corr skip s).1.committed ≡ s.committed
  unfolding Tasks.approve_plan
  committed-plan_approval actor role solo corr skip = ground arith

  committed-plan_rejection :
      (actor : String) (role : ActorRole) (feedback : String) (solo : Bool) (corr : Option ℕ)
      → (Tasks.reject_plan ctx id actor role feedback solo corr s).1.committed ≡ s.committed
  unfolding Tasks.reject_plan
  committed-plan_rejection actor role feedback solo corr = ground arith

  committed-implementation :
      (by : String) (corr : Option ℕ)
      → (Tasks.submit_implementation ctx id by corr s).1.committed ≡ s.committed
  unfolding Tasks.submit_implementation
  committed-implementation by corr = ground arith

  committed-review_approval :
      (actor : String) (role : ActorRole) (solo : Bool) (corr : Option ℕ) (skip : Bool)
      → (Tasks.approve_review ctx id actor role solo corr skip s).1.committed ≡ s.committed
  unfolding Tasks.approve_review
  committed-review_approval actor role solo corr skip = ground arith

  committed-review_rejection :
      (actor : String) (role : ActorRole) (feedback : String) (solo : Bool) (corr : Option ℕ)
      → (Tasks.reject_review ctx id actor role feedback solo corr s).1.committed ≡ s.committed
  unfolding Tasks.reject_review
  committed-review_rejection actor role feedback solo corr = ground arith

  committed-defer :
      (actor : String) (corr : Option ℕ)
      → (Tasks.defer_task ctx id actor corr s).1.committed ≡ s.committed
  unfolding Tasks.defer_task
  committed-defer actor corr = ground arith

  pub perform-committed : (op : TaskOp) → (perform ctx id op s).1.committed ≡ s.committed
  unfolding perform
  perform-committed (approve actor corr skip) = committed-approve actor corr skip
  perform-committed (reject actor feedback) = committed-reject actor feedback
  perform-committed (assign kind assignee by corr skip) =
      committed-assign kind assignee by corr skip
  perform-committed (plan by corr) = committed-plan by corr
  perform-committed (plan_approval actor role solo corr skip) =
      committed-plan_approval actor role solo corr skip
  perform-committed (plan_rejection actor role feedback solo corr) =
      committed-plan_rejection actor role feedback solo corr
  perform-committed (implementation by corr) = committed-implementation by corr
  perform-committed (review_approval actor role solo corr skip) =
      committed-review_approval actor role solo corr skip
  perform-committed (review_rejection actor role feedback solo corr) =
      committed-review_rejection actor role feedback solo corr
  perform-committed (defer actor corr) = committed-defer actor corr

module _ {Q : Db → Type 0} (free : IgnoresTasks Q) where
  effect-keeps : (ctx : Ctx) (id : ℕ) (op : TaskOp) (db : Db) → Q db → Q (effect ctx id op db)
  unfolding effect
  effect-keeps ctx id op db h =
      let x = free.at_tasks db (rewritten ctx id op db.tasks) h in
      let y = free.at_assignments _ (reassigned ctx id op db.assignments) x in
      free.at_approvals _ (decision id op ++ db.approvals) y

  outcome-keeps : (r : Result Task) (new old : Db) → Q new → Q old → Q (outcome r new old)
  outcome-keeps (ok t) new old hn ho = hn
  outcome-keeps (err e) new old hn ho = ho

module _ {Q R : Db → Type 0} (free : IgnoresTasks Q) where
  perform-Keeps : (ctx : Ctx) (id : ℕ) (op : TaskOp) → Keeps (Both Q R) (perform ctx id op)
  perform-Keeps ctx id op = record {
    at = λ s h. record {
      seen = subst Q (sym (perform-effect ctx id s op)) (
          outcome-keeps free (perform ctx id op s).0 _ s.db
            (effect-keeps free ctx id op s.db h.seen) h.seen);
      kept = subst R (sym (perform-committed ctx id s op)) h.kept;
    };
  }

  pub approve_task-Keeps :
      (ctx : Ctx) (id : ℕ) (actor : String) (corr : Option ℕ) (skip : Bool)
      → Keeps (Both Q R) (Tasks.approve_task ctx id actor corr skip)
  unfolding perform
  approve_task-Keeps ctx id actor corr skip = perform-Keeps ctx id (approve actor corr skip)

  pub reject_task_proposal-Keeps :
      (ctx : Ctx) (id : ℕ) (actor feedback : String)
      → Keeps (Both Q R) (Tasks.reject_task_proposal ctx id actor feedback)
  unfolding perform
  reject_task_proposal-Keeps ctx id actor feedback = perform-Keeps ctx id (reject actor feedback)

  pub assign_task-Keeps :
      (ctx : Ctx) (id : ℕ) (kind : AssigneeType) (assignee by : String) (corr : Option ℕ)
      (skip : Bool)
      → Keeps (Both Q R) (Tasks.assign_task ctx id kind assignee by corr skip)
  unfolding perform
  assign_task-Keeps ctx id kind assignee by corr skip =
      perform-Keeps ctx id (assign kind assignee by corr skip)

  pub submit_plan-Keeps :
      (ctx : Ctx) (id : ℕ) (by : String) (corr : Option ℕ)
      → Keeps (Both Q R) (Tasks.submit_plan ctx id by corr)
  unfolding perform
  submit_plan-Keeps ctx id by corr = perform-Keeps ctx id (plan by corr)

  pub approve_plan-Keeps :
      (ctx : Ctx) (id : ℕ) (actor : String) (role : ActorRole) (solo : Bool) (corr : Option ℕ)
      (skip : Bool)
      → Keeps (Both Q R) (Tasks.approve_plan ctx id actor role solo corr skip)
  unfolding perform
  approve_plan-Keeps ctx id actor role solo corr skip =
      perform-Keeps ctx id (plan_approval actor role solo corr skip)

  pub reject_plan-Keeps :
      (ctx : Ctx) (id : ℕ) (actor : String) (role : ActorRole) (feedback : String) (solo : Bool)
      (corr : Option ℕ)
      → Keeps (Both Q R) (Tasks.reject_plan ctx id actor role feedback solo corr)
  unfolding perform
  reject_plan-Keeps ctx id actor role feedback solo corr =
      perform-Keeps ctx id (plan_rejection actor role feedback solo corr)

  pub submit_implementation-Keeps :
      (ctx : Ctx) (id : ℕ) (by : String) (corr : Option ℕ)
      → Keeps (Both Q R) (Tasks.submit_implementation ctx id by corr)
  unfolding perform
  submit_implementation-Keeps ctx id by corr = perform-Keeps ctx id (implementation by corr)

  pub approve_review-Keeps :
      (ctx : Ctx) (id : ℕ) (actor : String) (role : ActorRole) (solo : Bool) (corr : Option ℕ)
      (skip : Bool)
      → Keeps (Both Q R) (Tasks.approve_review ctx id actor role solo corr skip)
  unfolding perform
  approve_review-Keeps ctx id actor role solo corr skip =
      perform-Keeps ctx id (review_approval actor role solo corr skip)

  pub reject_review-Keeps :
      (ctx : Ctx) (id : ℕ) (actor : String) (role : ActorRole) (feedback : String) (solo : Bool)
      (corr : Option ℕ)
      → Keeps (Both Q R) (Tasks.reject_review ctx id actor role feedback solo corr)
  unfolding perform
  reject_review-Keeps ctx id actor role feedback solo corr =
      perform-Keeps ctx id (review_rejection actor role feedback solo corr)

  pub defer_task-Keeps :
      (ctx : Ctx) (id : ℕ) (actor : String) (corr : Option ℕ)
      → Keeps (Both Q R) (Tasks.defer_task ctx id actor corr)
  unfolding perform
  defer_task-Keeps ctx id actor corr = perform-Keeps ctx id (defer actor corr)

-- ===== src/Lifecycle/Transitions/Effects.antt =====
-- What every task transition writes, and that one which raises writes nothing.
use carestechs_agent_orchest.Prelude.{
  ℕ, String, ◌≡◌, Bool, Option, none, some, if◌then◌else◌, Result, ok, err, arith, is_none, update,
  List, map, [], ◌∷◌, ◌++◌,
}
use carestechs_agent_orchest.Enums.Lifecycle.{
  TaskStatus, ActorRole, AssigneeType, ApprovalStage, ApprovalDecision,
}
use carestechs_agent_orchest.Lifecycle.Store.{
  Task, Approval, TaskAssignment, Ctx, Session, Db, find_task, is_task,
}
use carestechs_agent_orchest.Lifecycle.Tasks
use carestechs_agent_orchest.Lifecycle.Tasks.{with_status, touched, supersede}
use carestechs_agent_orchest.Lifecycle.Transitions.Operations.{
  TaskOp, target, perform, approve, reject, assign, plan, plan_approval, plan_rejection,
  implementation, review_approval, review_rejection, defer, answer, gives_reason, may_decide,
  settled,
}
use carestechs_agent_orchest.Lifecycle.Transitions.Answers.{
  superseded_inactive, refind, refind_touched, perform-answer,
}

-- The status is the orchestrator's to write only where there is no engine.
abbrev pub set_status : Ctx → ℕ → TaskStatus → List Task → List Task
set_status ctx id to ts =
    if is_none ctx.engine then update (is_task id) (with_status ctx.now to) ts else ts

abbrev verdict :
    ℕ → ApprovalStage → ApprovalDecision → String → ActorRole → Option String → Approval
verdict id stage choice actor role feedback = record {
  task_id = id;
  stage = stage;
  decision = choice;
  decided_by = actor;
  decided_by_role = role;
  feedback = feedback;
}

-- The task rows after an accepted request.
unfoldable pub rewritten : Ctx → ℕ → TaskOp → List Task → List Task
rewritten ctx id (reject _ _) ts = update (is_task id) (touched ctx.now) ts
rewritten ctx id (approve _ _ _) ts = set_status ctx id TaskStatus.assigning ts
rewritten ctx id (assign _ _ _ _ _) ts = set_status ctx id TaskStatus.planning ts
rewritten ctx id (plan _ _) ts = set_status ctx id TaskStatus.plan_review ts
rewritten ctx id (plan_approval _ _ _ _ _) ts = set_status ctx id TaskStatus.implementing ts
rewritten ctx id (plan_rejection _ _ _ _ _) ts = set_status ctx id TaskStatus.planning ts
rewritten ctx id (implementation _ _) ts = set_status ctx id TaskStatus.impl_review ts
rewritten ctx id (review_approval _ _ _ _ _) ts = set_status ctx id TaskStatus.done ts
rewritten ctx id (review_rejection _ _ _ _ _) ts = set_status ctx id TaskStatus.implementing ts
rewritten ctx id (defer _ _) ts = set_status ctx id TaskStatus.deferred ts

-- The approval rows that an accepted request adds: none where the reactor is to write them.
unfoldable pub decision : ℕ → TaskOp → List Approval
decision id (approve actor _ skip) =
    if skip
    then []
    else verdict id ApprovalStage.proposed ApprovalDecision.approve actor ActorRole.admin none ∷ []
decision id (reject actor feedback) =
    verdict id ApprovalStage.proposed ApprovalDecision.reject actor ActorRole.admin (some feedback)
    ∷ []
decision id (plan_approval actor role _ _ skip) =
    if skip then [] else verdict id ApprovalStage.plan ApprovalDecision.approve actor role none ∷ []
decision id (plan_rejection actor role feedback _ _) =
    verdict id ApprovalStage.plan ApprovalDecision.reject actor role (some feedback) ∷ []
decision id (review_approval actor role _ _ skip) =
    if skip then [] else verdict id ApprovalStage.impl ApprovalDecision.approve actor role none ∷ []
decision id (review_rejection actor role feedback _ _) =
    verdict id ApprovalStage.impl ApprovalDecision.reject actor role (some feedback) ∷ []
decision id _ = []

-- The assignment rows after an accepted request.
unfoldable pub reassigned : Ctx → ℕ → TaskOp → List TaskAssignment → List TaskAssignment
reassigned ctx id (assign kind assignee by _ skip) xs =
    let old = map (supersede ctx id) xs in
    if skip
    then old
    else record {
      task_id = id;
      assignee_type = kind;
      assignee_id = assignee;
      assigned_by = by;
      superseded_at = none;
    }
      ∷ old
reassigned ctx id _ xs = xs

-- The database after an accepted request.
unfoldable pub effect : Ctx → ℕ → TaskOp → Db → Db
unfolding rewritten decision reassigned
effect ctx id op db = record db {
  tasks = rewritten ctx id op db.tasks;
  assignments = reassigned ctx id op db.assignments;
  approvals = decision id op ++ db.approvals;
}

-- The database after a request, by its answer.
abbrev pub outcome : Result Task → Db → Db → Db
outcome (ok t) new old = new
outcome (err e) new old = old

module _ (ctx : Ctx) (id : ℕ) (s : Session) where
  effect-approve :
      (actor : String) (corr : Option ℕ) (skip : Bool)
      → (Tasks.approve_task ctx id actor corr skip s).1.db
        ≡ outcome
            (answer ctx id (approve actor corr skip) s.db)
            (effect ctx id (approve actor corr skip) s.db)
            s.db
  unfolding answer target gives_reason may_decide settled find_task effect Tasks.approve_task
  effect-approve actor corr skip = ground (arith, refind id ctx.now TaskStatus.assigning s.db.tasks)

  effect-reject :
      (actor feedback : String)
      → (Tasks.reject_task_proposal ctx id actor feedback s).1.db
        ≡ outcome
            (answer ctx id (reject actor feedback) s.db)
            (effect ctx id (reject actor feedback) s.db)
            s.db
  unfolding answer target gives_reason may_decide settled find_task effect
      Tasks.reject_task_proposal
  effect-reject actor feedback = ground (arith, refind_touched id ctx.now s.db.tasks)

  effect-assign :
      (kind : AssigneeType) (assignee by : String) (corr : Option ℕ) (skip : Bool)
      → (Tasks.assign_task ctx id kind assignee by corr skip s).1.db
        ≡ outcome
            (answer ctx id (assign kind assignee by corr skip) s.db)
            (effect ctx id (assign kind assignee by corr skip) s.db)
            s.db
  unfolding answer target gives_reason may_decide settled find_task effect Tasks.assign_task
  effect-assign kind assignee by corr skip = ground (
    arith,
    refind id ctx.now TaskStatus.planning s.db.tasks,
    superseded_inactive ctx id s.db.assignments,
    superseded_inactive ctx id s.db.assignments,
  )

  effect-plan :
      (by : String) (corr : Option ℕ)
      → (Tasks.submit_plan ctx id by corr s).1.db
        ≡ outcome (answer ctx id (plan by corr) s.db) (effect ctx id (plan by corr) s.db) s.db
  unfolding answer target gives_reason may_decide settled find_task effect Tasks.submit_plan
  effect-plan by corr = ground (arith, refind id ctx.now TaskStatus.plan_review s.db.tasks)

  effect-plan_approval :
      (actor : String) (role : ActorRole) (solo : Bool) (corr : Option ℕ) (skip : Bool)
      → (Tasks.approve_plan ctx id actor role solo corr skip s).1.db
        ≡ outcome
            (answer ctx id (plan_approval actor role solo corr skip) s.db)
            (effect ctx id (plan_approval actor role solo corr skip) s.db)
            s.db
  unfolding answer target gives_reason may_decide settled find_task effect Tasks.approve_plan
  effect-plan_approval actor role solo corr skip =
      ground (arith, refind id ctx.now TaskStatus.implementing s.db.tasks)

  effect-plan_rejection :
      (actor : String) (role : ActorRole) (feedback : String) (solo : Bool) (corr : Option ℕ)
      → (Tasks.reject_plan ctx id actor role feedback solo corr s).1.db
        ≡ outcome
            (answer ctx id (plan_rejection actor role feedback solo corr) s.db)
            (effect ctx id (plan_rejection actor role feedback solo corr) s.db)
            s.db
  unfolding answer target gives_reason may_decide settled find_task effect Tasks.reject_plan
  effect-plan_rejection actor role feedback solo corr =
      ground (arith, refind id ctx.now TaskStatus.planning s.db.tasks)

  effect-implementation :
      (by : String) (corr : Option ℕ)
      → (Tasks.submit_implementation ctx id by corr s).1.db
        ≡ outcome
            (answer ctx id (implementation by corr) s.db)
            (effect ctx id (implementation by corr) s.db)
            s.db
  unfolding answer target gives_reason may_decide settled find_task effect
      Tasks.submit_implementation
  effect-implementation by corr =
      ground (arith, refind id ctx.now TaskStatus.impl_review s.db.tasks)

  effect-review_approval :
      (actor : String) (role : ActorRole) (solo : Bool) (corr : Option ℕ) (skip : Bool)
      → (Tasks.approve_review ctx id actor role solo corr skip s).1.db
        ≡ outcome
            (answer ctx id (review_approval actor role solo corr skip) s.db)
            (effect ctx id (review_approval actor role solo corr skip) s.db)
            s.db
  unfolding answer target gives_reason may_decide settled find_task effect Tasks.approve_review
  effect-review_approval actor role solo corr skip =
      ground (arith, refind id ctx.now TaskStatus.done s.db.tasks)

  effect-review_rejection :
      (actor : String) (role : ActorRole) (feedback : String) (solo : Bool) (corr : Option ℕ)
      → (Tasks.reject_review ctx id actor role feedback solo corr s).1.db
        ≡ outcome
            (answer ctx id (review_rejection actor role feedback solo corr) s.db)
            (effect ctx id (review_rejection actor role feedback solo corr) s.db)
            s.db
  unfolding answer target gives_reason may_decide settled find_task effect Tasks.reject_review
  effect-review_rejection actor role feedback solo corr =
      ground (arith, refind id ctx.now TaskStatus.implementing s.db.tasks)

  effect-defer :
      (actor : String) (corr : Option ℕ)
      → (Tasks.defer_task ctx id actor corr s).1.db
        ≡ outcome
            (answer ctx id (defer actor corr) s.db)
            (effect ctx id (defer actor corr) s.db)
            s.db
  unfolding answer target gives_reason may_decide settled find_task effect Tasks.defer_task
  effect-defer actor corr = ground (arith, refind id ctx.now TaskStatus.deferred s.db.tasks)

  performed :
      (op : TaskOp)
      → (perform ctx id op s).1.db ≡ outcome (answer ctx id op s.db) (effect ctx id op s.db) s.db
  unfolding perform
  performed (approve actor corr skip) = effect-approve actor corr skip
  performed (reject actor feedback) = effect-reject actor feedback
  performed (assign kind assignee by corr skip) = effect-assign kind assignee by corr skip
  performed (plan by corr) = effect-plan by corr
  performed (plan_approval actor role solo corr skip) =
      effect-plan_approval actor role solo corr skip
  performed (plan_rejection actor role feedback solo corr) =
      effect-plan_rejection actor role feedback solo corr
  performed (implementation by corr) = effect-implementation by corr
  performed (review_approval actor role solo corr skip) =
      effect-review_approval actor role solo corr skip
  performed (review_rejection actor role feedback solo corr) =
      effect-review_rejection actor role feedback solo corr
  performed (defer actor corr) = effect-defer actor corr

  -- A request that is answered with an error leaves the whole database as it was. One that is
  -- accepted changes the rows of its task, and of its assignments, as the specification says, and
  -- adds at most one approval. Without an engine a rejected plan and a rejected implementation write
  -- planning and implementing, where the module's docstring has the status stay.
  pub perform-effect :
      (op : TaskOp)
      → (perform ctx id op s).1.db ≡ outcome (perform ctx id op s).0 (effect ctx id op s.db) s.db
  perform-effect op = rw (perform-answer ctx id s op) (performed op)

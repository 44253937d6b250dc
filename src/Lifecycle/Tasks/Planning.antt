-- ===== src/Lifecycle/Tasks/Planning.antt =====
-- src/app/modules/ai/lifecycle/tasks.py: T1 to T6, from the proposal of a task to its plan.
use carestechs_agent_orchest.Prelude.{
  ℕ, String, Bool, not, Option, none, some, map, if◌then◌else◌, pure, when, ◌>>=◌, ◌>>◌,
}
use carestechs_agent_orchest.Enums.Lifecycle.{
  TaskStatus, ActorRole, ActorType, AssigneeType, ApprovalStage, ApprovalDecision,
}
use carestechs_agent_orchest.Lifecycle.Store.{
  Task, TaskAssignment, Ctx, Action, update_task, write, fresh, send_transition, create_engine_item,
  insert_task, insert_assignment, insert_approval, is_active,
}
use carestechs_agent_orchest.Lifecycle.Tasks.Steps.{
  touched, require_feedback, load_task, require_status, refresh, write_status, mirror_to_engine,
}

module _ (ctx : Ctx) where
  -- T1
  unfoldable pub propose_task :
      (work_item_id : ℕ) (external_ref title : String) (proposer_type : ActorType)
      (proposer_id : String) (workflow_id : Option ℕ)
      → Action Task
  unfolding fresh insert_task
  propose_task work_item_id external_ref title proposer_type proposer_id workflow_id = do
    id ← fresh ctx
    let task : Task = record {
      id = id;
      work_item_id = work_item_id;
      external_ref = external_ref;
      title = title;
      status = TaskStatus.proposed;
      engine_item_id = create_engine_item ctx workflow_id title external_ref;
      proposer_type = proposer_type;
      proposer_id = proposer_id;
      updated_at = ctx.now;
    }
    insert_task task
    pure task

  -- T2 and T4
  unfoldable pub approve_task : ℕ → String → Option ℕ → Bool → Action Task
  unfolding load_task update_task insert_approval send_transition
  approve_task id actor corr skip_aux_write = do
    task ← load_task id
    require_status TaskStatus.proposed task
    when (not skip_aux_write) (
        insert_approval (record {
          task_id = id;
          stage = ApprovalStage.proposed;
          decision = ApprovalDecision.approve;
          decided_by = actor;
          decided_by_role = ActorRole.admin;
          feedback = none;
        }))
    write_status ctx id TaskStatus.assigning
    mirror_to_engine ctx task TaskStatus.approved corr actor
    mirror_to_engine ctx task TaskStatus.assigning corr actor
    refresh id

  -- T3
  unfoldable pub reject_task_proposal : ℕ → String → String → Action Task
  unfolding load_task update_task insert_approval
  reject_task_proposal id actor feedback = do
    require_feedback (some feedback)
    task ← load_task id
    require_status TaskStatus.proposed task
    insert_approval (record {
      task_id = id;
      stage = ApprovalStage.proposed;
      decision = ApprovalDecision.reject;
      decided_by = actor;
      decided_by_role = ActorRole.admin;
      feedback = some feedback;
    })
    write (update_task id (touched ctx.now))
    refresh id

  -- The active assignment, of which the partial unique index allows one, is superseded.
  abbrev pub supersede : ℕ → TaskAssignment → TaskAssignment
  supersede id a = if is_active id a then record a { superseded_at = some ctx.now } else a

  -- T5
  unfoldable pub assign_task :
      (id : ℕ) (assignee_type : AssigneeType) (assignee_id assigned_by : String) (corr : Option ℕ)
      (skip_aux_write : Bool)
      → Action Task
  unfolding load_task update_task insert_assignment send_transition
  assign_task id assignee_type assignee_id assigned_by corr skip_aux_write = do
    task ← load_task id
    require_status TaskStatus.assigning task
    write (λ db. record db { assignments = map (supersede id) db.assignments })
    when (not skip_aux_write) (
        insert_assignment (record {
          task_id = id;
          assignee_type = assignee_type;
          assignee_id = assignee_id;
          assigned_by = assigned_by;
          superseded_at = none;
        }))
    write_status ctx id TaskStatus.planning
    mirror_to_engine ctx task TaskStatus.planning corr assigned_by
    refresh id

  -- T6
  unfoldable pub submit_plan : ℕ → String → Option ℕ → Action Task
  unfolding load_task update_task send_transition
  submit_plan id submitted_by corr = do
    task ← load_task id
    require_status TaskStatus.planning task
    write_status ctx id TaskStatus.plan_review
    mirror_to_engine ctx task TaskStatus.plan_review corr submitted_by
    refresh id

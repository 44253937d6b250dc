-- ===== src/Lifecycle/Matrix.antt =====
-- src/app/modules/ai/lifecycle/approval_matrix.py
use carestechs_agent_orchest.Prelude.{Bool, Option, none, some, if◌then◌else◌}
use carestechs_agent_orchest.Enums.Lifecycle.{
  ActorRole, AssigneeType, ApprovalStage, same_assignee_type,
}
use carestechs_agent_orchest.Lifecycle.Store.{TaskAssignment}

-- `assignment is not None and assignment.assignee_type == "dev"`
abbrev pub is_dev_assigned : Option TaskAssignment → Bool
is_dev_assigned none = Bool.false
is_dev_assigned (some a) = same_assignee_type a.assignee_type AssigneeType.dev

-- The role that must approve at a stage. The `task` argument is dropped by the code.
unfoldable pub approval_matrix : Option TaskAssignment → ApprovalStage → Bool → ActorRole
approval_matrix assignment ApprovalStage.proposed solo_dev = ActorRole.admin
approval_matrix assignment ApprovalStage.plan solo_dev =
    if is_dev_assigned assignment then ActorRole.dev else ActorRole.admin
approval_matrix assignment ApprovalStage.impl solo_dev =
    if solo_dev then ActorRole.admin else ActorRole.dev

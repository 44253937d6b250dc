-- ===== src/Enums/Lifecycle.antt =====
-- src/app/modules/ai/enums.py: the enums of work items, tasks and approvals.
use carestechs_agent_orchest.Prelude.{
  ℕ, String, ◌≡◌, refl, ◌↔◌, Bool, true, Option, none, some, arith, ◌==◌, str_eq, if◌then◌else◌,
}

-- `TaskStatus`
pub data TaskStatus : Type 0 where
  proposed approved assigning planning plan_review implementing impl_review done deferred :
      TaskStatus

-- `TaskStatus.value`: the text that the columns hold.
unfoldable pub task_status_value : TaskStatus → String
task_status_value TaskStatus.proposed = "proposed"
task_status_value TaskStatus.approved = "approved"
task_status_value TaskStatus.assigning = "assigning"
task_status_value TaskStatus.planning = "planning"
task_status_value TaskStatus.plan_review = "plan_review"
task_status_value TaskStatus.implementing = "implementing"
task_status_value TaskStatus.impl_review = "impl_review"
task_status_value TaskStatus.done = "done"
task_status_value TaskStatus.deferred = "deferred"

-- The position in the enum, for comparisons.
abbrev pub task_status_rank : TaskStatus → ℕ
task_status_rank TaskStatus.proposed = 0
task_status_rank TaskStatus.approved = 1
task_status_rank TaskStatus.assigning = 2
task_status_rank TaskStatus.planning = 3
task_status_rank TaskStatus.plan_review = 4
task_status_rank TaskStatus.implementing = 5
task_status_rank TaskStatus.impl_review = 6
task_status_rank TaskStatus.done = 7
task_status_rank TaskStatus.deferred = 8

-- `a == b` on the enum.
abbrev pub same_task_status : TaskStatus → TaskStatus → Bool
same_task_status a b = task_status_rank a == task_status_rank b

pub same_task_status_iff : (a b : TaskStatus) → (same_task_status a b ≡ true) ↔ (a ≡ b)
same_task_status_iff a b = ground arith

-- The member that a text names, where the column's CHECK constraint admits it.
unfoldable pub parse_task_status : String → Option TaskStatus
parse_task_status s =
    if str_eq s "proposed"
    then some TaskStatus.proposed
    else if str_eq s "approved"
    then some TaskStatus.approved
    else if str_eq s "assigning"
    then some TaskStatus.assigning
    else if str_eq s "planning"
    then some TaskStatus.planning
    else if str_eq s "plan_review"
    then some TaskStatus.plan_review
    else if str_eq s "implementing"
    then some TaskStatus.implementing
    else if str_eq s "impl_review"
    then some TaskStatus.impl_review
    else if str_eq s "done"
    then some TaskStatus.done
    else if str_eq s "deferred"
    then some TaskStatus.deferred
    else none

-- Reading a value's text gives the value back.
pub parse_task_status-value : (a : TaskStatus) → parse_task_status (task_status_value a) ≡ some a
unfolding parse_task_status task_status_value
parse_task_status-value TaskStatus.proposed = refl
parse_task_status-value TaskStatus.approved = refl
parse_task_status-value TaskStatus.assigning = refl
parse_task_status-value TaskStatus.planning = refl
parse_task_status-value TaskStatus.plan_review = refl
parse_task_status-value TaskStatus.implementing = refl
parse_task_status-value TaskStatus.impl_review = refl
parse_task_status-value TaskStatus.done = refl
parse_task_status-value TaskStatus.deferred = refl

-- `WorkItemStatus`
pub data WorkItemStatus : Type 0 where
  opened in_progress locked ready closed : WorkItemStatus

-- `WorkItemStatus.value`: the text that the columns hold.
unfoldable pub work_item_status_value : WorkItemStatus → String
work_item_status_value WorkItemStatus.opened = "open"
work_item_status_value WorkItemStatus.in_progress = "in_progress"
work_item_status_value WorkItemStatus.locked = "locked"
work_item_status_value WorkItemStatus.ready = "ready"
work_item_status_value WorkItemStatus.closed = "closed"

-- The position in the enum, for comparisons.
abbrev pub work_item_status_rank : WorkItemStatus → ℕ
work_item_status_rank WorkItemStatus.opened = 0
work_item_status_rank WorkItemStatus.in_progress = 1
work_item_status_rank WorkItemStatus.locked = 2
work_item_status_rank WorkItemStatus.ready = 3
work_item_status_rank WorkItemStatus.closed = 4

-- `a == b` on the enum.
abbrev pub same_work_item_status : WorkItemStatus → WorkItemStatus → Bool
same_work_item_status a b = work_item_status_rank a == work_item_status_rank b

pub same_work_item_status_iff :
    (a b : WorkItemStatus) → (same_work_item_status a b ≡ true) ↔ (a ≡ b)
same_work_item_status_iff a b = ground arith

-- The member that a text names, where the column's CHECK constraint admits it.
unfoldable pub parse_work_item_status : String → Option WorkItemStatus
parse_work_item_status s =
    if str_eq s "open"
    then some WorkItemStatus.opened
    else if str_eq s "in_progress"
    then some WorkItemStatus.in_progress
    else if str_eq s "locked"
    then some WorkItemStatus.locked
    else if str_eq s "ready"
    then some WorkItemStatus.ready
    else if str_eq s "closed"
    then some WorkItemStatus.closed
    else none

-- Reading a value's text gives the value back.
pub parse_work_item_status-value :
    (a : WorkItemStatus) → parse_work_item_status (work_item_status_value a) ≡ some a
unfolding parse_work_item_status work_item_status_value
parse_work_item_status-value WorkItemStatus.opened = refl
parse_work_item_status-value WorkItemStatus.in_progress = refl
parse_work_item_status-value WorkItemStatus.locked = refl
parse_work_item_status-value WorkItemStatus.ready = refl
parse_work_item_status-value WorkItemStatus.closed = refl

-- `WorkItemType`
pub data WorkItemType : Type 0 where
  feat bug imp : WorkItemType

-- `WorkItemType.value`: the text that the columns hold.
unfoldable pub work_item_type_value : WorkItemType → String
work_item_type_value WorkItemType.feat = "FEAT"
work_item_type_value WorkItemType.bug = "BUG"
work_item_type_value WorkItemType.imp = "IMP"

-- `ActorType`
pub data ActorType : Type 0 where
  admin agent : ActorType

-- `ActorType.value`: the text that the columns hold.
unfoldable pub actor_type_value : ActorType → String
actor_type_value ActorType.admin = "admin"
actor_type_value ActorType.agent = "agent"

-- `AssigneeType`
pub data AssigneeType : Type 0 where
  dev agent : AssigneeType

-- `AssigneeType.value`: the text that the columns hold.
unfoldable pub assignee_type_value : AssigneeType → String
assignee_type_value AssigneeType.dev = "dev"
assignee_type_value AssigneeType.agent = "agent"

-- The position in the enum, for comparisons.
abbrev pub assignee_type_rank : AssigneeType → ℕ
assignee_type_rank AssigneeType.dev = 0
assignee_type_rank AssigneeType.agent = 1

-- `a == b` on the enum.
abbrev pub same_assignee_type : AssigneeType → AssigneeType → Bool
same_assignee_type a b = assignee_type_rank a == assignee_type_rank b

pub same_assignee_type_iff : (a b : AssigneeType) → (same_assignee_type a b ≡ true) ↔ (a ≡ b)
same_assignee_type_iff a b = ground arith

-- `ActorRole`
pub data ActorRole : Type 0 where
  admin dev : ActorRole

-- `ActorRole.value`: the text that the columns hold.
unfoldable pub actor_role_value : ActorRole → String
actor_role_value ActorRole.admin = "admin"
actor_role_value ActorRole.dev = "dev"

-- The position in the enum, for comparisons.
abbrev pub actor_role_rank : ActorRole → ℕ
actor_role_rank ActorRole.admin = 0
actor_role_rank ActorRole.dev = 1

-- `a == b` on the enum.
abbrev pub same_actor_role : ActorRole → ActorRole → Bool
same_actor_role a b = actor_role_rank a == actor_role_rank b

pub same_actor_role_iff : (a b : ActorRole) → (same_actor_role a b ≡ true) ↔ (a ≡ b)
same_actor_role_iff a b = ground arith

-- `ApprovalStage`
pub data ApprovalStage : Type 0 where
  proposed plan impl : ApprovalStage

-- `ApprovalStage.value`: the text that the columns hold.
unfoldable pub approval_stage_value : ApprovalStage → String
approval_stage_value ApprovalStage.proposed = "proposed"
approval_stage_value ApprovalStage.plan = "plan"
approval_stage_value ApprovalStage.impl = "impl"

-- `ApprovalDecision`
pub data ApprovalDecision : Type 0 where
  approve reject : ApprovalDecision

-- `ApprovalDecision.value`: the text that the columns hold.
unfoldable pub approval_decision_value : ApprovalDecision → String
approval_decision_value ApprovalDecision.approve = "approve"
approval_decision_value ApprovalDecision.reject = "reject"

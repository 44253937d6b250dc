-- ===== src/Lifecycle/Store/Rows.antt =====
-- The rows of src/app/modules/ai/models.py that the lifecycle reads and writes. An id is the
-- number that a UUID is, a time is a number, and a text column with an enum CHECK constraint is
-- the enum.
use carestechs_agent_orchest.Prelude.{ℕ, String, Option, List}
use carestechs_agent_orchest.Enums.Lifecycle.{
  TaskStatus, WorkItemStatus, WorkItemType, ActorType, AssigneeType, ActorRole, ApprovalStage,
  ApprovalDecision,
}

pub record WorkItem : Type 0 where
  pub id : ℕ
  pub external_ref : String
  pub type : WorkItemType
  pub title : String
  pub source_path : Option String
  pub status : WorkItemStatus
  pub engine_item_id : Option ℕ
  pub opened_by : String
  pub closed_at : Option ℕ
  pub closed_by : Option String
  pub updated_at : ℕ

pub record Task : Type 0 where
  pub id : ℕ
  pub work_item_id : ℕ
  pub external_ref : String
  pub title : String
  pub status : TaskStatus
  pub engine_item_id : Option ℕ
  pub proposer_type : ActorType
  pub proposer_id : String
  pub updated_at : ℕ

pub record TaskAssignment : Type 0 where
  pub task_id : ℕ
  pub assignee_type : AssigneeType
  pub assignee_id : String
  pub assigned_by : String
  pub superseded_at : Option ℕ

pub record Approval : Type 0 where
  pub task_id : ℕ
  pub stage : ApprovalStage
  pub decision : ApprovalDecision
  pub decided_by : String
  pub decided_by_role : ActorRole
  pub feedback : Option String

pub record TaskPlan : Type 0 where
  pub task_id : ℕ
  pub plan_path : String
  pub plan_sha : String
  pub submitted_by : String

pub record TaskImplementation : Type 0 where
  pub task_id : ℕ
  pub pr_url : Option String
  pub commit_sha : String
  pub summary : String
  pub submitted_by : String

pub record LifecycleSignal : Type 0 where
  pub key : String
  pub entity_id : ℕ
  pub signal_name : String
  pub recorded_at : ℕ

-- A JSON object of texts and nulls, its keys in order.
abbrev pub Payload : Type 0
Payload = List (String × Option String)

pub record PendingSignalContext : Type 0 where
  pub correlation_id : ℕ
  pub signal_name : String
  pub payload : Payload

-- The JSON payload of an outbox row: `aux_type` with the fields of the row to build.
pub data AuxPayload : Type 0 where
  approval : ApprovalStage → ApprovalDecision → String → ActorRole → Option String → AuxPayload
  task_assignment : AssigneeType → String → String → AuxPayload
  task_plan : String → String → String → AuxPayload
  task_implementation : Option String → String → String → String → AuxPayload
  unknown : String → AuxPayload

pub record PendingAuxWrite : Type 0 where
  pub correlation_id : ℕ
  pub signal_name : String
  pub entity_type : String
  pub entity_id : ℕ
  pub payload : AuxPayload

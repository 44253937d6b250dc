-- ===== src/Lifecycle/Fixtures.antt =====
-- A small deployment without an engine, with two work items and three tasks, for the tests.
use carestechs_agent_orchest.Prelude.{ℕ, suc, none, some, [], ◌∷◌}
use carestechs_agent_orchest.Enums.Lifecycle.{
  TaskStatus, WorkItemStatus, WorkItemType, ActorType, AssigneeType,
}
use carestechs_agent_orchest.Lifecycle.Store.{WorkItem, Task, TaskAssignment, Db, Session, Ctx}

abbrev pub ctx : Ctx
ctx = record {
  now = 70;
  uuid = λ n. suc n;
  engine = none;
  digest = λ id name payload. name;
  uuid5 = λ name. 5;
  id_text = λ id. "id";
}

-- The same with an engine.
abbrev pub engine_ctx : Ctx
engine_ctx = record ctx { engine = some (record { create_item = λ kind title ref. some 9 }) }

abbrev pub work_item : ℕ → WorkItemStatus → WorkItem
work_item id status = record {
  id = id;
  external_ref = "FEAT-1";
  type = WorkItemType.feat;
  title = "Login";
  source_path = none;
  status = status;
  engine_item_id = none;
  opened_by = "ada";
  closed_at = none;
  closed_by = none;
  updated_at = 1;
}

abbrev pub task : ℕ → TaskStatus → Task
task id status = record {
  id = id;
  work_item_id = 1;
  external_ref = "T-1";
  title = "Form";
  status = status;
  engine_item_id = none;
  proposer_type = ActorType.agent;
  proposer_id = "llm";
  updated_at = 1;
}

abbrev pub assignment : TaskAssignment
assignment = record {
  task_id = 5;
  assignee_type = AssigneeType.dev;
  assignee_id = "bob";
  assigned_by = "ada";
  superseded_at = none;
}

-- Task 5 is under review, task 6 is done, task 7 is just proposed.
abbrev pub db : Db
db = record {
  work_items = work_item 1 WorkItemStatus.in_progress ∷ work_item 2 WorkItemStatus.locked ∷ [];
  tasks = task 5 TaskStatus.impl_review ∷ task 6 TaskStatus.done ∷ task 7 TaskStatus.proposed ∷ [];
  assignments = assignment ∷ [];
  approvals = [];
  plans = [];
  implementations = [];
  signals =
      record {
        key = "unlock-work-item";
        entity_id = 2;
        signal_name = "unlock-work-item";
        recorded_at = 3;
      }
      ∷ [];
  contexts = [];
  aux_writes = [];
  dispatches = [];
}

abbrev pub session : Session
session = record { db = db; committed = db; calls = []; draws = 0; woken = [] }

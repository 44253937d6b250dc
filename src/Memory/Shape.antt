-- ===== src/Memory/Shape.antt =====
-- src/app/modules/ai/tools/lifecycle/memory.py: the typed shape.
use carestechs_agent_orchest.Prelude.{String, Bool, Option, none, some, List, [], str_eq, find}
use carestechs_agent_orchest.Enums.Lifecycle.{WorkItemType}
use carestechs_agent_orchest.Json.Value.{ℤ}

pub record WorkItemRef : Type 0 where
  pub id : String
  pub type : WorkItemType
  pub title : String
  pub path : String
  pub summary : String
  pub acceptance_criteria : List String

-- The `Literal` types of the fields.
pub data TaskProgress : Type 0 where
  pending in_progress completed failed : TaskProgress

pub data Complexity : Type 0 where
  small medium large : Complexity

pub data TaskKind : Type 0 where
  feature mockup bug chore : TaskKind

pub data TaskWorkflow : Type 0 where
  standard mockup_first investigation_first : TaskWorkflow

pub data Verdict : Type 0 where
  pass fail : Verdict

pub record LifecycleTask : Type 0 where
  pub id : String
  pub title : String
  pub executor : Option String
  pub status : TaskProgress
  pub plan_path : Option String
  pub engine_item_id : Option String
  pub submitted : Bool
  pub description : String
  pub acceptance_criteria : List String
  pub complexity : Complexity
  pub depends_on : List String
  pub files_hint : List String
  pub kind : TaskKind
  pub workflow : Option TaskWorkflow

pub record LifecycleReview : Type 0 where
  pub task_id : String
  pub attempt : ℤ
  pub verdict : Verdict
  pub feedback : String
  pub written_to : String

-- A dict is its items, in order, each key once.
pub record LifecycleMemory : Type 0 where
  pub work_item : Option WorkItemRef
  pub tasks : List LifecycleTask
  pub current_task_id : Option String
  pub review_history : List LifecycleReview
  pub files_touched_per_task : List (String × List String)
  pub correction_attempts : List (String × ℤ)
  pub completed_task_ids : List String

-- `LifecycleMemory.empty()`
abbrev pub empty_memory : LifecycleMemory
empty_memory = record {
  work_item = none;
  tasks = [];
  current_task_id = none;
  review_history = [];
  files_touched_per_task = [];
  correction_attempts = [];
  completed_task_ids = [];
}

-- `find_current_task`
unfoldable pub find_current_task : LifecycleMemory → Option LifecycleTask
unfolding find
find_current_task memory = elim memory.current_task_id [
  | none ↦ none
  | some id ↦ find (λ t. str_eq t.id id) memory.tasks
]

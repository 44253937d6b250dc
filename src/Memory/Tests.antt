-- ===== src/Memory/Tests.antt =====
-- A memory with one task, in data that the runtime has written to.
use carestechs_agent_orchest.Prelude.{true, none, some, [], ◌∷◌, ◌≡◌, refl}
use carestechs_agent_orchest.Enums.Lifecycle.{WorkItemType}
use carestechs_agent_orchest.Flow.Plain.{strict}
use carestechs_agent_orchest.Json.Value.{pos, text, Fields, end, field, lookup, merge}
use carestechs_agent_orchest.Memory.Shape.{
  WorkItemRef, TaskProgress, Complexity, TaskKind, TaskWorkflow, LifecycleTask, LifecycleMemory,
}
use carestechs_agent_orchest.Memory.Store.{read_lifecycle_memory, write_lifecycle_memory}
use carestechs_agent_orchest.Memory.RoundTrip.{read-write_lifecycle_memory}

abbrev task : LifecycleTask
task = record {
  id = "T-001";
  title = "Add the endpoint";
  executor = none;
  status = TaskProgress.in_progress;
  plan_path = some "plans/T-001.md";
  engine_item_id = none;
  submitted = true;
  description = "";
  acceptance_criteria = "it answers" ∷ [];
  complexity = Complexity.small;
  depends_on = [];
  files_hint = [];
  kind = TaskKind.bug;
  workflow = some TaskWorkflow.investigation_first;
}

abbrev item : WorkItemRef
item = record {
  id = "BUG-001";
  type = WorkItemType.bug;
  title = "Lost signal";
  path = "docs/BUG-001.md";
  summary = "";
  acceptance_criteria = [];
}

abbrev memory : LifecycleMemory
memory = record {
  work_item = some item;
  tasks = task ∷ [];
  current_task_id = some "T-001";
  review_history = [];
  files_touched_per_task = ("T-001", "a.py" ∷ []) ∷ [];
  correction_attempts = ("T-001", pos 1) ∷ [];
  completed_task_ids = [];
}

abbrev whole : Fields
whole = field "plans" (text "kept") end

read-write_lifecycle_memory_example :
    (read_lifecycle_memory strict (merge whole (write_lifecycle_memory memory)) ≡ some memory)
    × (lookup "plans" (merge whole (write_lifecycle_memory memory)) ≡ lookup "plans" whole)
read-write_lifecycle_memory_example =
    read-write_lifecycle_memory strict (λ n. refl) (λ b. refl) memory whole "plans" refl

-- ===== src/Executors/Tests.antt =====
-- An agent with two nodes, one bound and one without a binding.
use carestechs_agent_orchest.Prelude.{
  String, false, none, some, is_some, List, [], ◌∷◌, any, ◌≡◌, ◌⊎◌, refl, ◌<◌,
}
use carestechs_agent_orchest.Enums.Runtime.{DispatchMode}
use carestechs_agent_orchest.Flow.Plain.{plain}
use carestechs_agent_orchest.Json.Value.{text, array, object, nil, cons, Fields, end, field}
use carestechs_agent_orchest.Memory.Shape.{
  TaskProgress, Complexity, TaskKind, LifecycleTask, LifecycleMemory, empty_memory,
}
use carestechs_agent_orchest.Memory.Store.{read_lifecycle_memory, write_lifecycle_memory}
use carestechs_agent_orchest.Flow.Predicates.{tasks_remaining}
use carestechs_agent_orchest.Executors.Bodies.{finish_task}
use carestechs_agent_orchest.Executors.Progress.{open_tasks, finish_task-open_tasks}
use carestechs_agent_orchest.Executors.Registry.{Key, same_key, Binding, Registry, no_executor}
use carestechs_agent_orchest.Executors.Coverage.{
  Verdict, normalize_all, sorted_names, validate_executor_coverage,
}
use carestechs_agent_orchest.Executors.Laws.{is_offending, validate_executor_coverage-cases}

abbrev binding : Binding
binding = record {
  agent_ref = "lifecycle-agent@0.3.0";
  node_name = "load_work_item";
  name = "local:load_work_item";
  mode = DispatchMode.local;
  timeout_seconds = none;
  intake_builder = none;
}

abbrev agent : Fields
agent = field "ref" (text "lifecycle-agent@0.3.0") (
    field "nodes"
      (array (
        cons (object (field "name" (text "load_work_item") end))
          (cons (object (field "name" (text "generate_tasks") end)) nil)))
      end)

-- Nine characters and white space are too few.
no_executor-short : no_executor ("a", "b") "  too short " [] ≡ none
unfolding no_executor
no_executor-short = refl

abbrev inputs : List (String × List String)
inputs = ("lifecycle-agent@0.3.0", "load_work_item" ∷ "generate_tasks" ∷ []) ∷ []

abbrev bound : Registry
bound = binding ∷ []

validate_executor_coverage-cases_example :
    ((validate_executor_coverage bound [] (agent ∷ []) ≡ Verdict.covered)
      × (is_offending bound [] ("lifecycle-agent@0.3.0", "generate_tasks") inputs ≡ false))
    ⊎ ((key : Key) × (keys : List Key) × (validate_executor_coverage bound [] (agent ∷ [])
          ≡ Verdict.uncovered (key ∷ keys))
        × (any (same_key ("lifecycle-agent@0.3.0", "generate_tasks")) (key ∷ keys)
            ≡ is_offending bound [] ("lifecycle-agent@0.3.0", "generate_tasks") inputs))
unfolding normalize_all
validate_executor_coverage-cases_example =
    validate_executor_coverage-cases bound [] (agent ∷ []) inputs "lifecycle-agent@0.3.0"
      "generate_tasks" refl

-- The same agent loaded twice is listed twice.
listed_twice :
    validate_executor_coverage bound [] (agent ∷ agent ∷ [])
    ≡ Verdict.uncovered (
        ("lifecycle-agent@0.3.0", "generate_tasks")
        ∷ ("lifecycle-agent@0.3.0", "generate_tasks")
        ∷ [])
unfolding validate_executor_coverage
listed_twice = refl

sorted_once : sorted_names ("b" ∷ "a" ∷ "b" ∷ "ab" ∷ []) ≡ "a" ∷ "ab" ∷ "b" ∷ []
unfolding sorted_names
sorted_once = refl

abbrev task_of : String → LifecycleTask
task_of id = record {
  id = id;
  title = "Title";
  executor = none;
  status = TaskProgress.pending;
  plan_path = none;
  engine_item_id = none;
  submitted = false;
  description = "";
  acceptance_criteria = [];
  complexity = Complexity.medium;
  depends_on = [];
  files_hint = [];
  kind = TaskKind.feature;
  workflow = none;
}

abbrev two_tasks : LifecycleMemory
two_tasks = record empty_memory {
  tasks = task_of "T-1" ∷ task_of "T-2" ∷ [];
  current_task_id = some "T-1";
}

finish_task-open_tasks_example :
    (open_tasks (finish_task two_tasks) < open_tasks two_tasks)
    × (tasks_remaining plain (write_lifecycle_memory (finish_task two_tasks)) none
        ≡ some (is_some (finish_task two_tasks).current_task_id))
unfolding read_lifecycle_memory write_lifecycle_memory finish_task
finish_task-open_tasks_example =
    finish_task-open_tasks plain (write_lifecycle_memory (finish_task two_tasks)) none two_tasks
      "T-1" refl refl refl refl

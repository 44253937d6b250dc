-- ===== src/Memory/Store.antt =====
-- src/app/modules/ai/tools/lifecycle/memory.py: the memory as it lies in the run's data. A raised
-- validation error is `none`. src/app/modules/ai/tools/lifecycle/corrections.py: its one tool.
use carestechs_agent_orchest.Prelude.{
  zero, suc, String, Option, none, some, List, [], ◌∷◌, any, str_eq, if◌then◌else◌,
}
use carestechs_agent_orchest.Json.Value.{
  ℤ, pos, negsuc, Json, null, object, Fields, end, field, get, is_empty,
}
use carestechs_agent_orchest.Memory.Shape.{LifecycleMemory, empty_memory}
use carestechs_agent_orchest.Memory.Codec.{Lax, model_validate, to_run_memory}

abbrev or_empty_memory : Option LifecycleMemory → LifecycleMemory
or_empty_memory none = empty_memory
or_empty_memory (some memory) = memory

module _ (lax : Lax) where
  unfoldable pub from_run_memory : Fields → Option LifecycleMemory
  unfolding model_validate
  from_run_memory end = some empty_memory
  from_run_memory (field k v rest) = model_validate lax (field k v rest)

  -- What stands under the namespace; without it, the data itself is the older shape.
  unfoldable pub read_nested : Fields → Json → Option LifecycleMemory
  unfolding from_run_memory model_validate
  read_nested whole null = some (or_empty_memory (from_run_memory whole))
  read_nested whole (object fields) = model_validate lax fields
  read_nested whole _ = some empty_memory

  unfoldable pub read_lifecycle_memory : Fields → Option LifecycleMemory
  unfolding read_nested get
  read_lifecycle_memory whole =
      if is_empty whole then some empty_memory else read_nested whole (get "lifecycle.v1" whole)

unfoldable pub write_lifecycle_memory : LifecycleMemory → Fields
unfolding to_run_memory
write_lifecycle_memory memory = field "lifecycle.v1" (object (to_run_memory memory)) end

-- `attempts.get(key, 0)` and `attempts[key] = n`
unfoldable pub attempts_of : String → List (String × ℤ) → ℤ
attempts_of key [] = pos 0
attempts_of key ((k, n) ∷ rest) = if str_eq k key then n else attempts_of key rest

unfoldable pub set_attempts : String → ℤ → List (String × ℤ) → List (String × ℤ)
set_attempts key n [] = (key, n) ∷ []
set_attempts key n ((k, m) ∷ rest) =
    if str_eq k key then (key, n) ∷ rest else (k, m) ∷ set_attempts key n rest

abbrev pub add_one : ℤ → ℤ
add_one (pos n) = pos (suc n)
add_one (negsuc zero) = pos 0
add_one (negsuc (suc n)) = negsuc n

-- `memory.model_copy(update={"correction_attempts": attempts})`, the task's count one higher.
unfoldable pub count_correction : String → LifecycleMemory → LifecycleMemory
unfolding attempts_of set_attempts
count_correction task_id memory = record {
  work_item = memory.work_item;
  tasks = memory.tasks;
  current_task_id = memory.current_task_id;
  review_history = memory.review_history;
  files_touched_per_task = memory.files_touched_per_task;
  correction_attempts =
      set_attempts task_id (add_one (attempts_of task_id memory.correction_attempts))
        memory.correction_attempts;
  completed_task_ids = memory.completed_task_ids;
}

-- `corrections.handle`: a task that the memory does not have is a `PolicyError`, here `none`.
unfoldable pub handle : String → LifecycleMemory → Option LifecycleMemory
unfolding any count_correction
handle task_id memory =
    if any (λ t. str_eq t.id task_id) memory.tasks
    then some (count_correction task_id memory)
    else none

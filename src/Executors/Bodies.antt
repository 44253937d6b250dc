-- ===== src/Executors/Bodies.antt =====
-- src/app/modules/ai/executors/bootstrap.py: the memory that the bodies of the lifecycle's nodes write.
-- What raises is `none`.
use carestechs_agent_orchest.Prelude.{
  String, false, Option, none, some, List, [], ◌∷◌, ◌++◌, any, str_eq, ◌==◌, if◌then◌else◌,
}
use Prim.Native.Char.{code}
use carestechs_agent_orchest.Enums.Lifecycle.{WorkItemType, work_item_type_value}
use carestechs_agent_orchest.Json.Value.{
  Json, null, text, array, object, Items, nil, cons, Fields, end, field, lookup, get, set,
  is_truthy, as_object,
}
use carestechs_agent_orchest.Memory.Shape.{
  TaskProgress, Complexity, TaskKind, LifecycleTask, LifecycleMemory, empty_memory,
}
use carestechs_agent_orchest.Memory.Codec.{
  read_literal, work_item_types, complexities, complexity_value, kinds, kind_value,
}
use carestechs_agent_orchest.Memory.Store.{read_lifecycle_memory, write_lifecycle_memory}
use carestechs_agent_orchest.Flow.Predicates.{Env, to_str}
use carestechs_agent_orchest.Checkpoints.Patches.{sidecar, next_task, text_of, or_value}

infixl 5 ◌>>=◌
abbrev ◌>>=◌ : {A B : Type 0} → Option A → (A → Option B) → Option B
none >>= f = none
some a >>= f = f a

-- `memory.completed_task_ids.append(id)`, where it is not there yet.
unfoldable pub complete : Option String → List String → List String
unfolding any
complete none completed = completed
complete (some id) completed =
    if any (str_eq id) completed then completed else completed ++ (id ∷ [])

-- `_mark_task_done_handler`: the memory that it writes.
unfoldable pub finish_task : LifecycleMemory → LifecycleMemory
unfolding complete next_task
finish_task m =
    let completed = complete m.current_task_id m.completed_task_ids in
    record m { completed_task_ids = completed; current_task_id = next_task completed m.tasks }

abbrev text_or_null : Option String → Json
text_or_null none = null
text_or_null (some t) = text t

-- `text.split("-", 1)[0]`
unfoldable pub before_dash : String → String
before_dash String.[] = ""
before_dash (String.◌∷◌ c s) =
    let rest = before_dash s in if code c == 45 then "" else String.◌∷◌ c rest

abbrev or_else : String → String → String
or_else t other = if is_truthy (text t) then t else other

abbrev or_none : String → Option String
or_none t = if is_truthy (text t) then some t else none

module _ (env : Env) where
  unfoldable pub mark_task_done : Fields → Option Fields
  unfolding read_lifecycle_memory finish_task write_lifecycle_memory
  mark_task_done memory = do
    m ← read_lifecycle_memory env.lax memory
    some (
        field "completedTaskId" (text_or_null m.current_task_id) (
          field "nextTaskId" (text_or_null (finish_task m).current_task_id)
            (field "__memory_patch" (object (write_lifecycle_memory (finish_task m))) end)))

  -- `str(result.get(key, default) or default)`
  unfoldable pub text_or : String → String → Fields → String
  unfolding get to_str
  text_or key default result =
      let v = get key result in if is_truthy v then to_str env v else default

  unfoldable pub type_of : String → WorkItemType
  unfolding before_dash read_literal work_item_type_value
  type_of id =
      or_value
        (read_literal work_item_type_value work_item_types (text (or_else (before_dash id) "FEAT")))
        WorkItemType.feat

  -- `result.get("work_item_id", "FEAT")` for the type, and `result.get("work_item_id", "")` for the id.
  abbrev typed_id : Fields → String
  typed_id result = elim (lookup "work_item_id" result) [ none ↦ "FEAT" | some v ↦ to_str env v ]

  -- `_patch_load_work_item`: a memory of its own, with nothing but the work item.
  unfoldable pub patch_load_work_item : Fields → Fields
  unfolding type_of text_of lookup to_str write_lifecycle_memory
  patch_load_work_item result = write_lifecycle_memory (record empty_memory {
    work_item = some (record {
      id = text_of env "work_item_id" result;
      type = type_of (typed_id result);
      title = text_of env "title" result;
      path = "";
      summary = "";
      acceptance_criteria = [];
    });
  })

  -- `[str(v) for v in values]`
  unfoldable pub texts_in : Items → List String
  unfolding to_str
  texts_in nil = []
  texts_in (cons v rest) = to_str env v ∷ texts_in rest

  abbrev texts_of : Json → Option (List String)
  texts_of (array values) = some (texts_in values)
  texts_of v = if is_truthy v then none else some []

  -- `[str(v) for v in t.get(key) or []]`, for a list or a falsy value.
  abbrev texts_at : String → Fields → Option (List String)
  texts_at key t = texts_of (get key t)

  -- `_task`
  unfoldable pub generated_task : Fields → Option LifecycleTask
  unfolding text_of text_or get texts_in read_literal complexity_value kind_value
  generated_task t = do
    criteria ← texts_at "acceptance_criteria" t
    depends_on ← texts_at "depends_on" t
    files_hint ← texts_at "files_hint" t
    some (record {
      id = text_of env "id" t;
      title = text_of env "title" t;
      executor = or_none (text_of env "executor" t);
      status = TaskProgress.pending;
      plan_path = none;
      engine_item_id = none;
      submitted = false;
      description = text_or "description" "" t;
      acceptance_criteria = criteria;
      complexity =
          or_value
            (read_literal complexity_value complexities (text (text_or "complexity" "medium" t)))
            Complexity.medium;
      depends_on = depends_on;
      files_hint = files_hint;
      kind =
          or_value (read_literal kind_value kinds (text (text_or "kind" "feature" t)))
            TaskKind.feature;
      workflow = none;
    })

  unfoldable pub generated_tasks : Items → Option (List LifecycleTask)
  unfolding generated_task
  generated_tasks nil = some []
  generated_tasks (cons v rest) = do
    fields ← as_object v
    t ← generated_task fields
    more ← generated_tasks rest
    some (t ∷ more)

  abbrev items_of : Json → Option Items
  items_of (array values) = some values
  items_of v = if is_truthy v then none else some nil

  -- `str(tasks_in[0].get("id")) if tasks_in else None`
  abbrev first_id : Items → Option String
  first_id nil = none
  first_id (cons v rest) = elim (as_object v) [
    | none ↦ none
    | some t ↦ some (to_str env (get "id" t))
  ]

  -- `_patch_generate_tasks`: a memory of its own, with nothing but the tasks and the current one.
  unfoldable pub patch_generate_tasks : Fields → Option Fields
  unfolding get generated_tasks to_str write_lifecycle_memory
  patch_generate_tasks result = do
    values ← items_of (get "tasks" result)
    tasks ← generated_tasks values
    some (
        write_lifecycle_memory
          (record empty_memory { tasks = tasks; current_task_id = first_id values }))

  abbrev as_dict : Json → Option Fields
  as_dict v = if is_truthy v then as_object v else some end

  -- `_patch_generate_plan`
  unfoldable pub patch_generate_plan : Fields → Fields → Option Fields
  unfolding text_of get set
  patch_generate_plan result memory = do
    plans ← as_dict (get "plans" memory)
    let entry = object (field "plan_markdown" (get "plan_markdown" result) end) in
        some (field "plans" (object (set (text_of env "task_id" result) entry plans)) end)

  -- `_patch_generate_mockup`
  unfoldable pub patch_generate_mockup : Fields → Fields → Fields
  unfolding text_or sidecar set
  patch_generate_mockup result memory =
      let id = text_or "task_id" "" result in
      if is_truthy (text id)
      then field "mockups"
          (object (
            set id
              (object (
                field "mockup_html" (text (text_or "mockup_html" "" result))
                  (field "description" (text (text_or "description" "" result)) end)))
              (sidecar "mockups" memory)))
          end
      else end

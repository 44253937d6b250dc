-- ===== src/Checkpoints/Intakes.antt =====
-- src/app/modules/ai/executors/lifecycle_manual_patches.py: what each checkpoint shows of the memory,
-- merged into the intake of its dispatch. What raises is `none`.
use carestechs_agent_orchest.Prelude.{
  String, Option, none, some, List, [], ◌∷◌, find, str_eq, if◌then◌else◌,
}
use carestechs_agent_orchest.Enums.Lifecycle.{work_item_type_value}
use carestechs_agent_orchest.Json.Value.{
  Json, null, bool, int, text, array, object, Items, nil, cons, Fields, end, field, get, is_truthy,
  as_object,
}
use carestechs_agent_orchest.Memory.Shape.{
  WorkItemRef, LifecycleTask, LifecycleReview, LifecycleMemory,
}
use carestechs_agent_orchest.Memory.Codec.{
  dump_optional, dump_items, dump_texts, dump_work_item, dump_task, progress_value,
  complexity_value, kind_value, workflow_value, verdict_value,
}
use carestechs_agent_orchest.Memory.Store.{read_lifecycle_memory}
use carestechs_agent_orchest.Flow.Predicates.{Env, to_str}
use carestechs_agent_orchest.Checkpoints.Patches.{sidecar, or_text}

-- `model_dump(mode="json")`, with the fields' own names.
unfoldable pub show_work_item : WorkItemRef → Json
unfolding dump_items work_item_type_value
show_work_item w = object (
    field "id" (text w.id) (
      field "type" (text (work_item_type_value w.type)) (
        field "title" (text w.title) (
          field "path" (text w.path) (
            field "summary" (text w.summary)
              (field "acceptance_criteria" (dump_texts w.acceptance_criteria) end))))))

unfoldable pub show_task : LifecycleTask → Json
unfolding dump_items progress_value complexity_value kind_value workflow_value
show_task t = object (
    field "id" (text t.id) (
      field "title" (text t.title) (
        field "executor" (dump_optional text t.executor) (
          field "status" (text (progress_value t.status)) (
            field "plan_path" (dump_optional text t.plan_path) (
              field "engine_item_id" (dump_optional text t.engine_item_id) (
                field "submitted" (bool t.submitted) (
                  field "description" (text t.description) (
                    field "acceptance_criteria" (dump_texts t.acceptance_criteria) (
                      field "complexity" (text (complexity_value t.complexity)) (
                        field "depends_on" (dump_texts t.depends_on) (
                          field "files_hint" (dump_texts t.files_hint) (
                            field "kind" (text (kind_value t.kind)) (
                              field "workflow"
                                (dump_optional (λ w. text (workflow_value w)) t.workflow)
                                end))))))))))))))

unfoldable pub show_review : LifecycleReview → Json
unfolding verdict_value
show_review r = object (
    field "task_id" (text r.task_id) (
      field "attempt" (int r.attempt) (
        field "verdict" (text (verdict_value r.verdict))
          (field "feedback" (text r.feedback) (field "written_to" (text r.written_to) end)))))

-- The reviews of one task, in their order.
unfoldable pub reviews_of : String → List LifecycleReview → Items
unfolding show_review
reviews_of id [] = nil
reviews_of id (r ∷ rest) =
    let later = reviews_of id rest in
    if str_eq r.task_id id then cons (show_review r) later else later

-- `memory.current_task_id or ""`
abbrev pub current_id : LifecycleMemory → String
current_id m = or_text m.current_task_id ""

abbrev task_with : String → LifecycleMemory → Json
task_with id m = dump_optional show_task (find (λ (t : LifecycleTask). str_eq t.id id) m.tasks)

-- Compared with `current_task_id` itself, which may be None.
abbrev task_at : Option String → LifecycleMemory → Json
task_at none m = null
task_at (some id) m = task_with id m

-- `current_memory.get(key)` where it is a dict, read at a task.
abbrev entry_of : String → String → Fields → Json
entry_of key id memory = get id (sidecar key memory)

module _ (env : Env) where
  -- `str(entry.get(key) or "")` where the entry is a dict.
  abbrev text_at : String → Json → String
  text_at key v = elim (as_object v) [
    | none ↦ ""
    | some entry ↦ if is_truthy (get key entry) then to_str env (get key entry) else ""
  ]

  abbrev with_memory : Fields → (LifecycleMemory → Option Fields) → Option Fields
  with_memory memory show = elim (read_lifecycle_memory env.lax memory) [
    | none ↦ none
    | some m ↦ show m
  ]

  unfoldable pub resolve_plan_markdown : Fields → String → String
  unfolding sidecar get to_str
  resolve_plan_markdown memory id = text_at "plan_markdown" (entry_of "plans" id memory)

  unfoldable pub intake_for_confirm_brief : Fields → Option Fields
  unfolding read_lifecycle_memory show_work_item
  intake_for_confirm_brief memory =
      with_memory memory
        (λ m. some (field "workItemSummary" (dump_optional show_work_item m.work_item) end))

  unfoldable pub intake_for_confirm_tasks : Fields → Option Fields
  unfolding read_lifecycle_memory show_task dump_items
  intake_for_confirm_tasks memory =
      with_memory memory (λ m. some (field "tasks" (array (dump_items show_task m.tasks)) end))

  -- `dict(current_memory.get("assignments") or {})`, for a dict or a falsy value.
  abbrev as_dict : Json → Option Fields
  as_dict v = if is_truthy v then as_object v else some end

  unfoldable pub intake_for_confirm_assignment : Fields → Option Fields
  unfolding read_lifecycle_memory show_task find get
  intake_for_confirm_assignment memory = with_memory memory λ m.
      elim (as_dict (get "assignments" memory)) [
        | none ↦ none
        | some assignments ↦ some (
            field "currentTask" (task_at m.current_task_id m)
              (field "assignments" (object assignments) end))
      ]

  -- The task and its plan, as the plan's and the implementation's checkpoints show them.
  abbrev task_and_plan : LifecycleMemory → Fields → Fields → Fields
  task_and_plan m memory rest =
      field "currentTask" (task_with (current_id m) m)
        (field "planMarkdown" (text (resolve_plan_markdown memory (current_id m))) rest)

  unfoldable pub intake_for_confirm_plan : Fields → Option Fields
  unfolding read_lifecycle_memory show_task find resolve_plan_markdown
  intake_for_confirm_plan memory = with_memory memory (λ m. some (task_and_plan m memory end))

  unfoldable pub intake_for_request_implementation : Fields → Option Fields
  unfolding read_lifecycle_memory show_task find resolve_plan_markdown
  intake_for_request_implementation memory =
      with_memory memory (λ m. some (task_and_plan m memory end))

  unfoldable pub intake_for_confirm_mockup : Fields → Option Fields
  unfolding read_lifecycle_memory show_task find sidecar get to_str
  intake_for_confirm_mockup memory = with_memory memory λ m.
      let mockup = entry_of "mockups" (current_id m) memory in
      some (
        field "currentTask" (task_with (current_id m) m) (
          field "mockupHtml" (text (text_at "mockup_html" mockup))
            (field "mockupDescription" (text (text_at "description" mockup)) end)))

  unfoldable pub intake_for_human_review : Fields → Option Fields
  unfolding read_lifecycle_memory show_task find resolve_plan_markdown reviews_of sidecar get
  intake_for_human_review memory = with_memory memory λ m.
      let id = current_id m in
      some (
        task_and_plan m memory (
          field "reviewHistory" (array (reviews_of id m.review_history)) (
            field "implementationRef" (entry_of "implementation_refs" id memory) (
              field "testResult"
                (if is_truthy (text id) then entry_of "testResults" id memory else null) end))))

  -- The feedback of the last rejection, null where the sidecar has no entry.
  abbrev prior_feedback : String → Fields → Json
  prior_feedback checkpoint memory = elim (as_object (entry_of "rejections" checkpoint memory)) [
    | none ↦ null
    | some entry ↦ text (text_at "feedback" (object entry))
  ]

  unfoldable pub intake_for_confirm_task_review : Fields → Option Fields
  unfolding read_lifecycle_memory dump_task dump_items sidecar get to_str
  intake_for_confirm_task_review memory = with_memory memory λ m. some (
      field "tasks" (array (dump_items dump_task m.tasks)) (
        field "priorFeedback" (prior_feedback "confirm_task_review" memory)
          (field "validatorResult" (entry_of "validatorResults" "tasks" memory) end)))

  unfoldable pub intake_for_confirm_docs_update : Fields → Option Fields
  unfolding read_lifecycle_memory dump_work_item dump_task dump_items sidecar get to_str
  intake_for_confirm_docs_update memory = with_memory memory λ m. some (
      field "workItem" (dump_optional dump_work_item m.work_item) (
        field "tasks" (array (dump_items dump_task m.tasks)) (
          field "completedTaskIds" (dump_texts m.completed_task_ids)
            (field "priorFeedback" (prior_feedback "confirm_docs_update" memory) end))))

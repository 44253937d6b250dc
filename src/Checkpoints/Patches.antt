-- ===== src/Checkpoints/Patches.antt =====
-- src/app/modules/ai/executors/lifecycle_manual_patches.py: the memory patch of each checkpoint. What
-- raises is `none`, the validation of the payload and of the memory included.
use carestechs_agent_orchest.Prelude.{
  suc, String, Bool, true, false, not, ◌&&◌, ◌||◌, Option, none, some, is_none, List, [], ◌∷◌, ◌++◌,
  map, find, any, count, str_eq, if◌then◌else◌,
}
use carestechs_agent_orchest.Json.Value.{
  ℤ, pos, Json, null, int, text, object, Fields, end, field, lookup, get, set, is_truthy, as_object,
}
use carestechs_agent_orchest.Memory.Shape.{
  WorkItemRef, TaskProgress, Complexity, TaskKind, Verdict, LifecycleTask, LifecycleReview,
  LifecycleMemory,
}
use carestechs_agent_orchest.Memory.Codec.{verdict_value}
use carestechs_agent_orchest.Memory.Store.{read_lifecycle_memory, write_lifecycle_memory, add_one}
use carestechs_agent_orchest.Flow.Predicates.{Env, to_int, to_str}
use carestechs_agent_orchest.Checkpoints.Payloads.{
  Decided, WorkItemCorrection, TaskInput, ImplementationCompletePayload, read_brief_confirmed,
  read_tasks_confirmed, read_assignment_confirmed, read_plan_confirmed, read_review_completed,
  read_mockup_approved, read_verdict_payload, read_implementation_complete,
}

infixl 5 ◌>>=◌
abbrev ◌>>=◌ : {A B : Type 0} → Option A → (A → Option B) → Option B
none >>= f = none
some a >>= f = f a

-- `value or default` on texts, and on lists.
abbrev pub or_text : Option String → String → String
or_text none other = other
or_text (some t) other = if is_truthy (text t) then t else other

abbrev or_null_text : Option String → Json
or_null_text none = null
or_null_text (some t) = text t

abbrev pub or_value : {A : Type 0} → Option A → A → A
or_value none other = other
or_value (some a) other = a

abbrev pub or_list : List String → List String → List String
or_list [] other = other
or_list (t ∷ ts) other = t ∷ ts

abbrev is_filled : Option String → Bool
is_filled none = false
is_filled (some t) = is_truthy (text t)

-- `current_memory.get(key)` where it is a dict, or else an empty one.
unfoldable pub sidecar : String → Fields → Fields
unfolding get
sidecar key memory = elim (as_object (get key memory)) [ none ↦ end | some fields ↦ fields ]

abbrev is_rejection : Decided → Bool
is_rejection Decided.reject = true
is_rejection Decided.approve = false

abbrev set_work_item : Option WorkItemRef → LifecycleMemory → LifecycleMemory
set_work_item w m = record m { work_item = w }

abbrev same_task : String → LifecycleTask → Bool
same_task id t = str_eq t.id id

-- `{t.id: t for t in tasks}.get(id)`: the last task of that id.
unfoldable pub last_with : String → List LifecycleTask → Option LifecycleTask
last_with id [] = none
last_with id (t ∷ rest) = elim (last_with id rest) [
  | some later ↦ some later
  | none ↦ if str_eq t.id id then some t else none
]

-- The first task, in the order of declaration, that is not completed.
unfoldable pub next_task : List String → List LifecycleTask → Option String
unfolding find any
next_task completed tasks =
    elim (find (λ (t : LifecycleTask). not (any (str_eq t.id) completed)) tasks) [
      | none ↦ none
      | some t ↦ some t.id
    ]

-- The corrections of an operator on top of a brief that is there.
abbrev merged_item : WorkItemCorrection → WorkItemRef → WorkItemRef
merged_item c w = record w {
  type = or_value c.type w.type;
  title = or_text c.title w.title;
  summary = or_value c.summary w.summary;
  acceptance_criteria = or_value c.acceptance_criteria w.acceptance_criteria;
}

abbrev changes_nothing : WorkItemCorrection → Bool
changes_nothing c =
    is_none c.title && is_none c.type && is_none c.summary && is_none c.acceptance_criteria

-- A brief that the operator writes: it needs an id, a title and a type.
abbrev authored : WorkItemCorrection → Option WorkItemRef
authored c = elim c.type [
  | none ↦ none
  | some type ↦
      if is_filled c.id && is_filled c.title
      then some (record {
        id = or_text c.id "";
        type = type;
        title = or_text c.title "";
        path = "";
        summary = or_text c.summary "";
        acceptance_criteria = or_value c.acceptance_criteria [];
      })
      else none
]

-- A task of the operator, on top of one of the same id or on the defaults.
unfoldable pub curated : TaskInput → Option LifecycleTask → LifecycleTask
curated e (some t) = record t {
  title = e.title;
  description = or_text e.description t.description;
  complexity = or_value e.complexity t.complexity;
  kind = or_value e.kind t.kind;
  workflow = elim e.workflow [ some w ↦ some w | none ↦ t.workflow ];
  depends_on = or_list e.dependencies t.depends_on;
  files_hint = or_list e.files_to_modify t.files_hint;
}
curated e none = record {
  id = e.id;
  title = e.title;
  executor = none;
  status = TaskProgress.pending;
  plan_path = none;
  engine_item_id = none;
  submitted = false;
  description = or_text e.description (or_text e.summary "");
  acceptance_criteria = [];
  complexity = or_value e.complexity Complexity.medium;
  depends_on = e.dependencies;
  files_hint = e.files_to_modify;
  kind = or_value e.kind TaskKind.feature;
  workflow = e.workflow;
}

unfoldable pub curate_tasks : List TaskInput → LifecycleMemory → LifecycleMemory
unfolding curated last_with next_task
curate_tasks entries m =
    let tasks = map (λ (e : TaskInput). curated e (last_with e.id m.tasks)) entries in
    record m { tasks = tasks; current_task_id = next_task m.completed_task_ids tasks }

-- `current_memory.get("assignments") or {}`; another value than a dict is refused.
abbrev assignments_of : Json → Option Fields
assignments_of v = if is_truthy v then as_object v else some end

abbrev add_mockup : Option String → Option String → Fields → Fields
add_mockup html none memory = end
add_mockup html (some id) memory =
    if is_truthy (text id)
    then field "mockups"
        (object (
          set id
            (object (field "mockup_html" (or_null_text html) (field "description" (text "") end)))
            (sidecar "mockups" memory)))
        end
    else end

-- `_patch_review` of src/app/modules/ai/executors/bootstrap.py: one more review of the task.
unfoldable pub add_review : String → String → String → LifecycleMemory → LifecycleMemory
unfolding count
add_review id verdict feedback m = record m {
  review_history =
      m.review_history
      ++ (record {
        task_id = id;
        attempt = pos (suc (count (λ (r : LifecycleReview). str_eq r.task_id id) m.review_history));
        verdict = if str_eq verdict "pass" then Verdict.pass else Verdict.fail;
        feedback = feedback;
        written_to = "memory";
      }
          ∷ []);
}

abbrev add_refs : ImplementationCompletePayload → Option String → Fields → Fields
add_refs parsed none memory = end
add_refs parsed (some id) memory =
    if is_truthy (text id)
    then field "implementation_refs"
        (object (
          set id
            (object (
              field "prUrl" (or_null_text parsed.pr_url) (
                field "commitSha" (or_null_text parsed.commit_sha)
                  (field "summary" (or_null_text parsed.summary) end))))
            (sidecar "implementation_refs" memory)))
        end
    else end

module _ (env : Env) where
  abbrev prior_attempt : Option Fields → Option ℤ
  prior_attempt none = some (pos 0)
  prior_attempt (some prior) = elim (lookup "attempt" prior) [
    | none ↦ some (pos 0)
    | some v ↦ to_int env v
  ]

  -- `_rejection_patch`
  unfoldable pub rejection_patch : String → Option String → Fields → Option Fields
  unfolding sidecar get set to_int lookup
  rejection_patch checkpoint feedback memory =
      let existing = sidecar "rejections" memory in
      do
        attempt ← prior_attempt (as_object (get checkpoint existing))
        let entry =
              field "feedback" (text (or_text feedback ""))
                (field "attempt" (int (add_one attempt)) end) in
            some (field "rejections" (object (set checkpoint (object entry) existing)) end)

  abbrev correct_item : WorkItemCorrection → LifecycleMemory → Option WorkItemRef → Option Fields
  correct_item c m (some w) =
      if changes_nothing c
      then some end
      else some (write_lifecycle_memory (set_work_item (some (merged_item c w)) m))
  correct_item c m none =
      authored c >>= λ w. some (write_lifecycle_memory (set_work_item (some w) m))

  abbrev correct_brief : Option WorkItemCorrection → Fields → Option Fields
  correct_brief none memory = some end
  correct_brief (some c) memory =
      read_lifecycle_memory env.lax memory >>= λ m. correct_item c m m.work_item

  unfoldable pub apply_brief_correction : Fields → Fields → Option Fields
  unfolding read_brief_confirmed rejection_patch read_lifecycle_memory write_lifecycle_memory
  apply_brief_correction payload memory = do
    parsed ← read_brief_confirmed payload
    if is_rejection parsed.verdict
        then rejection_patch "confirm_brief" parsed.feedback memory
        else correct_brief parsed.work_item memory

  abbrev correct_tasks : Option (List TaskInput) → Fields → Option Fields
  correct_tasks none memory = some end
  correct_tasks (some entries) memory = read_lifecycle_memory env.lax memory >>= λ m.
      some (write_lifecycle_memory (curate_tasks entries m))

  unfoldable pub apply_tasks_correction : Fields → Fields → Option Fields
  unfolding read_tasks_confirmed rejection_patch read_lifecycle_memory write_lifecycle_memory
      curate_tasks
  apply_tasks_correction payload memory = do
    parsed ← read_tasks_confirmed payload
    if is_rejection parsed.verdict
        then rejection_patch "confirm_tasks" parsed.feedback memory
        else correct_tasks parsed.tasks memory

  abbrev with_plan : Option String → Fields → Option Fields
  with_plan none memory = some end
  with_plan (some plan) memory = do
    m ← read_lifecycle_memory env.lax memory
    id ← m.current_task_id
    some (
        field "plans"
          (object
            (set id (object (field "plan_markdown" (text plan) end)) (sidecar "plans" memory)))
          end)

  unfoldable pub apply_plan_correction : Fields → Fields → Option Fields
  unfolding read_plan_confirmed rejection_patch read_lifecycle_memory sidecar set
  apply_plan_correction payload memory = do
    parsed ← read_plan_confirmed payload
    if is_rejection parsed.verdict
        then rejection_patch "confirm_plan" parsed.feedback memory
        else with_plan parsed.plan memory

  abbrev or_current : Option String → Fields → Option (Option String)
  or_current (some id) memory = some (some id)
  or_current none memory = read_lifecycle_memory env.lax memory >>= λ m. some m.current_task_id

  unfoldable pub apply_assignment_confirmation : Fields → Fields → Option Fields
  unfolding read_assignment_confirmed read_lifecycle_memory get set
  apply_assignment_confirmation payload memory = do
    parsed ← read_assignment_confirmed payload
    target ← or_current parsed.task_id memory
    id ← target
    existing ← assignments_of (get "assignments" memory)
    some (field "assignments" (object (set id (text parsed.assignee) existing)) end)

  unfoldable pub apply_mockup_approval : Fields → Fields → Option Fields
  unfolding read_mockup_approved rejection_patch read_lifecycle_memory sidecar set
  apply_mockup_approval payload memory = do
    parsed ← read_mockup_approved payload
    if is_rejection parsed.verdict
        then rejection_patch "confirm_mockup" parsed.feedback memory
        else (if is_filled parsed.mockup_html
            then (read_lifecycle_memory env.lax memory >>= λ m.
                some (add_mockup parsed.mockup_html m.current_task_id memory))
            else some end)

  -- `TasksReviewedPayload` and `DocsUpdateConfirmedPayload`, by their checkpoints.
  unfoldable pub apply_verdict : String → Fields → Fields → Option Fields
  unfolding read_verdict_payload rejection_patch
  apply_verdict checkpoint payload memory = do
    parsed ← read_verdict_payload payload
    if is_rejection parsed.verdict
        then rejection_patch checkpoint parsed.feedback memory
        else some end

  unfoldable pub apply_task_review_verdict : Fields → Fields → Option Fields
  unfolding apply_verdict
  apply_task_review_verdict = apply_verdict "confirm_task_review"

  unfoldable pub apply_docs_update_verdict : Fields → Fields → Option Fields
  unfolding apply_verdict
  apply_docs_update_verdict = apply_verdict "confirm_docs_update"

  -- `str(result.get(key, ""))`
  unfoldable pub text_of : String → Fields → String
  unfolding lookup to_str
  text_of key result = elim (lookup key result) [ none ↦ "" | some v ↦ to_str env v ]

  unfoldable pub patch_review : Fields → Fields → Option Fields
  unfolding read_lifecycle_memory write_lifecycle_memory text_of add_review
  patch_review result memory = do
    m ← read_lifecycle_memory env.lax memory
    some (
        write_lifecycle_memory (
          add_review (text_of "task_id" result) (text_of "verdict" result)
            (text_of "feedback" result) m))

  unfoldable pub apply_review_verdict : Fields → Fields → Option Fields
  unfolding read_review_completed read_lifecycle_memory patch_review verdict_value
  apply_review_verdict payload memory = do
    parsed ← read_review_completed payload
    m ← read_lifecycle_memory env.lax memory
    id ← m.current_task_id
    patch_review
        (field "task_id" (text id) (
          field "verdict" (text (verdict_value parsed.verdict))
            (field "feedback" (text (or_text parsed.feedback "")) end)))
        memory

  unfoldable pub apply_implementation_signal : Fields → Fields → Option Fields
  unfolding read_implementation_complete read_lifecycle_memory sidecar set
  apply_implementation_signal payload memory = do
    parsed ← read_implementation_complete payload
    if is_filled parsed.pr_url || is_filled parsed.commit_sha || is_filled parsed.summary
        then (read_lifecycle_memory env.lax memory >>= λ m.
            some (add_refs parsed m.current_task_id memory))
        else some end

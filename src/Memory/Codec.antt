-- ===== src/Memory/Codec.antt =====
-- The validation and the dump of the typed shape, as pydantic does them for its field types: aliases
-- in camel case are read and written, the fields' own names are read too, and other keys are refused.
use carestechs_agent_orchest.Prelude.{
  ◌||◌, is_none, String, Bool, true, false, Option, none, some, List, [], ◌∷◌, str_eq, any, ◌&&◌,
  if◌then◌else◌,
}
use carestechs_agent_orchest.Enums.Lifecycle.{WorkItemType, work_item_type_value}
use carestechs_agent_orchest.Json.Value.{
  ℤ, Json, null, bool, int, text, array, object, Items, nil, cons, Fields, end, field, lookup,
  as_text,
}
use carestechs_agent_orchest.Memory.Shape.{
  WorkItemRef, TaskProgress, Complexity, TaskKind, TaskWorkflow, Verdict, LifecycleTask,
  LifecycleReview, LifecycleMemory,
}

-- pydantic's lax conversions to `int` and `bool`, which also take some texts and numbers.
pub record Lax : Type 0 where
  pub to_int : Json → Option ℤ
  pub to_bool : Json → Option Bool

infixl 5 ◌>>=◌
abbrev ◌>>=◌ : {A B : Type 0} → Option A → (A → Option B) → Option B
none >>= f = none
some a >>= f = f a

-- A value that may be null.
abbrev pub optional : {A : Type 0} → (Json → Option A) → Json → Option (Option A)
optional read null = some none
optional read v = read v >>= λ a. some (some a)

abbrev pub dump_optional : {A : Type 0} → (A → Json) → Option A → Json
dump_optional dump none = null
dump_optional dump (some a) = dump a

module _ {A : Type 0} (read : Json → Option A) where
  unfoldable pub read_items : Items → Option (List A)
  read_items nil = some []
  read_items (cons v vs) = do a ← read v; rest ← read_items vs; some (a ∷ rest)

  unfoldable pub read_dict : Fields → Option (List (String × A))
  read_dict end = some []
  read_dict (field k v rest) = do a ← read v; more ← read_dict rest; some ((k, a) ∷ more)

module _ {A : Type 0} (dump : A → Json) where
  unfoldable pub dump_items : List A → Items
  dump_items [] = nil
  dump_items (a ∷ rest) = cons (dump a) (dump_items rest)

  unfoldable pub dump_dict : List (String × A) → Fields
  dump_dict [] = end
  dump_dict ((k, a) ∷ rest) = field k (dump a) (dump_dict rest)

abbrev pub read_list : {A : Type 0} → (Json → Option A) → Json → Option (List A)
read_list read (array vs) = read_items read vs
read_list read _ = none

abbrev pub read_object : {A : Type 0} → (Json → Option A) → Json → Option (List (String × A))
read_object read (object fs) = read_dict read fs
read_object read _ = none

abbrev pub dump_texts : List String → Json
dump_texts ts = array (dump_items text ts)

-- A field by its alias, or else by its name.
abbrev pub by_alias : String → String → Fields → Option Json
by_alias alias name fs = elim (lookup alias fs) [ some v ↦ some v | none ↦ lookup name fs ]

-- `extra="forbid"` takes the name for another key where the alias is there too.
abbrev pub one_each : List (String × String) → Fields → Bool
one_each [] fs = true
one_each ((alias, name) ∷ rest) fs =
    (is_none (lookup alias fs) || is_none (lookup name fs)) && one_each rest fs

abbrev pub with_default : {A : Type 0} → (Json → Option A) → A → Option Json → Option A
with_default read default none = some default
with_default read default (some v) = read v

abbrev pub required : {A : Type 0} → (Json → Option A) → Option Json → Option A
required read none = none
required read (some v) = read v

-- `extra="forbid"`
unfoldable pub all_known : List String → Fields → Bool
unfolding any
all_known known end = true
all_known known (field k _ rest) = any (str_eq k) known && all_known known rest

abbrev pub guard : {A : Type 0} → Bool → Option A → Option A
guard true rest = rest
guard false rest = none

-- The `Literal` fields.
unfoldable pub progress_value : TaskProgress → String
progress_value TaskProgress.pending = "pending"
progress_value TaskProgress.in_progress = "in_progress"
progress_value TaskProgress.completed = "completed"
progress_value TaskProgress.failed = "failed"

unfoldable pub complexity_value : Complexity → String
complexity_value Complexity.small = "small"
complexity_value Complexity.medium = "medium"
complexity_value Complexity.large = "large"

unfoldable pub kind_value : TaskKind → String
kind_value TaskKind.feature = "feature"
kind_value TaskKind.mockup = "mockup"
kind_value TaskKind.bug = "bug"
kind_value TaskKind.chore = "chore"

unfoldable pub workflow_value : TaskWorkflow → String
workflow_value TaskWorkflow.standard = "standard"
workflow_value TaskWorkflow.mockup_first = "mockup-first"
workflow_value TaskWorkflow.investigation_first = "investigation-first"

unfoldable pub verdict_value : Verdict → String
verdict_value Verdict.pass = "pass"
verdict_value Verdict.fail = "fail"

-- The member of a list of members whose text is the value.
unfoldable pub read_literal : {A : Type 0} → (A → String) → List A → Json → Option A
read_literal value [] v = none
read_literal value (a ∷ rest) v = elim (as_text v) [
  | none ↦ none
  | some t ↦ if str_eq (value a) t then some a else read_literal value rest v
]

abbrev pub progresses : List TaskProgress
progresses =
    TaskProgress.pending ∷ TaskProgress.in_progress ∷ TaskProgress.completed ∷ TaskProgress.failed
    ∷ []

abbrev pub complexities : List Complexity
complexities = Complexity.small ∷ Complexity.medium ∷ Complexity.large ∷ []

abbrev pub kinds : List TaskKind
kinds = TaskKind.feature ∷ TaskKind.mockup ∷ TaskKind.bug ∷ TaskKind.chore ∷ []

abbrev pub workflows : List TaskWorkflow
workflows =
    TaskWorkflow.standard ∷ TaskWorkflow.mockup_first ∷ TaskWorkflow.investigation_first ∷ []

abbrev pub verdicts : List Verdict
verdicts = Verdict.pass ∷ Verdict.fail ∷ []

abbrev pub work_item_types : List WorkItemType
work_item_types = WorkItemType.feat ∷ WorkItemType.bug ∷ WorkItemType.imp ∷ []

unfoldable pub dump_work_item : WorkItemRef → Json
unfolding dump_items work_item_type_value
dump_work_item w = object (
    field "id" (text w.id) (
      field "type" (text (work_item_type_value w.type)) (
        field "title" (text w.title) (
          field "path" (text w.path) (
            field "summary" (text w.summary)
              (field "acceptanceCriteria" (dump_texts w.acceptance_criteria) end))))))

unfoldable pub dump_task : LifecycleTask → Json
unfolding dump_items progress_value complexity_value kind_value workflow_value
dump_task t = object (
    field "id" (text t.id) (
      field "title" (text t.title) (
        field "executor" (dump_optional text t.executor) (
          field "status" (text (progress_value t.status)) (
            field "planPath" (dump_optional text t.plan_path) (
              field "engineItemId" (dump_optional text t.engine_item_id) (
                field "submitted" (bool t.submitted) (
                  field "description" (text t.description) (
                    field "acceptanceCriteria" (dump_texts t.acceptance_criteria) (
                      field "complexity" (text (complexity_value t.complexity)) (
                        field "dependsOn" (dump_texts t.depends_on) (
                          field "filesHint" (dump_texts t.files_hint) (
                            field "kind" (text (kind_value t.kind)) (
                              field "workflow"
                                (dump_optional (λ w. text (workflow_value w)) t.workflow)
                                end))))))))))))))

unfoldable pub dump_review : LifecycleReview → Json
unfolding verdict_value
dump_review r = object (
    field "taskId" (text r.task_id) (
      field "attempt" (int r.attempt) (
        field "verdict" (text (verdict_value r.verdict))
          (field "feedback" (text r.feedback) (field "writtenTo" (text r.written_to) end)))))

-- `to_run_memory`
unfoldable pub to_run_memory : LifecycleMemory → Fields
unfolding dump_work_item dump_task dump_review dump_items dump_dict
to_run_memory m = field "workItem" (dump_optional dump_work_item m.work_item) (
    field "tasks" (array (dump_items dump_task m.tasks)) (
      field "currentTaskId" (dump_optional text m.current_task_id) (
        field "reviewHistory" (array (dump_items dump_review m.review_history)) (
          field "filesTouchedPerTask" (object (dump_dict dump_texts m.files_touched_per_task)) (
            field "correctionAttempts" (object (dump_dict int m.correction_attempts))
              (field "completedTaskIds" (dump_texts m.completed_task_ids) end))))))

module _ (lax : Lax) where
  unfoldable pub read_work_item : Json → Option WorkItemRef
  unfolding lookup all_known read_items read_literal work_item_type_value
  read_work_item (object fs) =
      guard
        ((all_known
            ("id" ∷ "type" ∷ "title" ∷ "path" ∷ "summary" ∷ "acceptanceCriteria"
              ∷ "acceptance_criteria" ∷ [])
            fs)
          && one_each (("acceptanceCriteria", "acceptance_criteria") ∷ []) fs)
        (do
          id ← required as_text (lookup "id" fs)
          type ← required (read_literal work_item_type_value work_item_types) (lookup "type" fs)
          title ← required as_text (lookup "title" fs)
          path ← required as_text (lookup "path" fs)
          summary ← with_default as_text "" (lookup "summary" fs)
          criteria ←
              with_default (read_list as_text) []
                (by_alias "acceptanceCriteria" "acceptance_criteria" fs)
          some (record {
            id = id;
            type = type;
            title = title;
            path = path;
            summary = summary;
            acceptance_criteria = criteria;
          }))
  read_work_item _ = none

  unfoldable pub read_task : Json → Option LifecycleTask
  unfolding lookup all_known read_items read_literal progress_value complexity_value kind_value
      workflow_value
  read_task (object fs) =
      guard
        ((all_known
            ("id" ∷ "title" ∷ "executor" ∷ "status" ∷ "planPath" ∷ "plan_path" ∷ "engineItemId"
              ∷ "engine_item_id" ∷ "submitted" ∷ "description" ∷ "acceptanceCriteria"
              ∷ "acceptance_criteria" ∷ "complexity" ∷ "dependsOn" ∷ "depends_on" ∷ "filesHint"
              ∷ "files_hint" ∷ "kind" ∷ "workflow" ∷ [])
            fs)
          && one_each
              (("planPath", "plan_path")
                ∷ ("engineItemId", "engine_item_id")
                ∷ ("acceptanceCriteria", "acceptance_criteria")
                ∷ ("dependsOn", "depends_on")
                ∷ ("filesHint", "files_hint")
                ∷ [])
              fs)
        (do
          id ← required as_text (lookup "id" fs)
          title ← required as_text (lookup "title" fs)
          executor ← with_default (optional as_text) none (lookup "executor" fs)
          status ←
              with_default (read_literal progress_value progresses) TaskProgress.pending
                (lookup "status" fs)
          plan_path ← with_default (optional as_text) none (by_alias "planPath" "plan_path" fs)
          engine_item_id ←
              with_default (optional as_text) none (by_alias "engineItemId" "engine_item_id" fs)
          submitted ← with_default lax.to_bool false (lookup "submitted" fs)
          description ← with_default as_text "" (lookup "description" fs)
          criteria ←
              with_default (read_list as_text) []
                (by_alias "acceptanceCriteria" "acceptance_criteria" fs)
          complexity ←
              with_default (read_literal complexity_value complexities) Complexity.medium
                (lookup "complexity" fs)
          depends_on ← with_default (read_list as_text) [] (by_alias "dependsOn" "depends_on" fs)
          files_hint ← with_default (read_list as_text) [] (by_alias "filesHint" "files_hint" fs)
          kind ← with_default (read_literal kind_value kinds) TaskKind.feature (lookup "kind" fs)
          workflow ←
              with_default (optional (read_literal workflow_value workflows)) none
                (lookup "workflow" fs)
          some (record {
            id = id;
            title = title;
            executor = executor;
            status = status;
            plan_path = plan_path;
            engine_item_id = engine_item_id;
            submitted = submitted;
            description = description;
            acceptance_criteria = criteria;
            complexity = complexity;
            depends_on = depends_on;
            files_hint = files_hint;
            kind = kind;
            workflow = workflow;
          }))
  read_task _ = none

  unfoldable pub read_review : Json → Option LifecycleReview
  unfolding lookup all_known read_literal verdict_value
  read_review (object fs) =
      guard
        ((all_known
            ("taskId" ∷ "task_id" ∷ "attempt" ∷ "verdict" ∷ "feedback" ∷ "writtenTo" ∷ "written_to"
              ∷ [])
            fs)
          && one_each (("taskId", "task_id") ∷ ("writtenTo", "written_to") ∷ []) fs)
        (do
          task_id ← required as_text (by_alias "taskId" "task_id" fs)
          attempt ← required lax.to_int (lookup "attempt" fs)
          verdict ← required (read_literal verdict_value verdicts) (lookup "verdict" fs)
          feedback ← required as_text (lookup "feedback" fs)
          written_to ← required as_text (by_alias "writtenTo" "written_to" fs)
          some (record {
            task_id = task_id;
            attempt = attempt;
            verdict = verdict;
            feedback = feedback;
            written_to = written_to;
          }))
  read_review _ = none

  -- `LifecycleMemory.model_validate`
  unfoldable pub model_validate : Fields → Option LifecycleMemory
  unfolding lookup all_known read_items read_dict read_work_item read_task read_review
  model_validate fs =
      guard
        ((all_known
            ("workItem" ∷ "work_item" ∷ "tasks" ∷ "currentTaskId" ∷ "current_task_id"
              ∷ "reviewHistory" ∷ "review_history" ∷ "filesTouchedPerTask"
              ∷ "files_touched_per_task" ∷ "correctionAttempts" ∷ "correction_attempts"
              ∷ "completedTaskIds" ∷ "completed_task_ids" ∷ [])
            fs)
          && one_each
              (("workItem", "work_item")
                ∷ ("currentTaskId", "current_task_id")
                ∷ ("reviewHistory", "review_history")
                ∷ ("filesTouchedPerTask", "files_touched_per_task")
                ∷ ("correctionAttempts", "correction_attempts")
                ∷ ("completedTaskIds", "completed_task_ids")
                ∷ [])
              fs)
        (do
          work_item ←
              with_default (optional read_work_item) none (by_alias "workItem" "work_item" fs)
          tasks ← with_default (read_list read_task) [] (lookup "tasks" fs)
          current ←
              with_default (optional as_text) none (by_alias "currentTaskId" "current_task_id" fs)
          reviews ←
              with_default (read_list read_review) [] (by_alias "reviewHistory" "review_history" fs)
          files ←
              with_default (read_object (read_list as_text)) []
                (by_alias "filesTouchedPerTask" "files_touched_per_task" fs)
          attempts ←
              with_default (read_object lax.to_int) []
                (by_alias "correctionAttempts" "correction_attempts" fs)
          completed ←
              with_default (read_list as_text) []
                (by_alias "completedTaskIds" "completed_task_ids" fs)
          some (record {
            work_item = work_item;
            tasks = tasks;
            current_task_id = current;
            review_history = reviews;
            files_touched_per_task = files;
            correction_attempts = attempts;
            completed_task_ids = completed;
          }))

-- ===== src/Checkpoints/Payloads.antt =====
-- src/app/modules/ai/executors/lifecycle_manual_patches.py: the payloads that operators deliver, and
-- their validation. A field is read by its name in camel case or by its own name, and no other key is
-- taken.
use carestechs_agent_orchest.Prelude.{
  String, Bool, true, false, not, ◌&&◌, Option, none, some, List, [], ◌∷◌, leb, is_blank,
}
use carestechs_agent_orchest.Enums.Lifecycle.{WorkItemType, work_item_type_value}
use carestechs_agent_orchest.Json.Value.{Json, object, Fields, lookup, as_text}
use carestechs_agent_orchest.Memory.Shape.{Complexity, TaskKind, TaskWorkflow, Verdict}
use carestechs_agent_orchest.Memory.Codec.{
  optional, read_items, read_list, by_alias, with_default, required, all_known, one_each, guard,
  read_literal, work_item_types, complexities, complexity_value, kinds, kind_value, workflows,
  workflow_value, verdicts, verdict_value,
}
use carestechs_agent_orchest.Executors.Registry.{size}

-- `Literal["approve", "reject"]`
pub data Decided : Type 0 where
  approve reject : Decided

unfoldable pub decided_value : Decided → String
decided_value Decided.approve = "approve"
decided_value Decided.reject = "reject"

abbrev pub decisions : List Decided
decisions = Decided.approve ∷ Decided.reject ∷ []

pub record WorkItemCorrection : Type 0 where
  pub id : Option String
  pub title : Option String
  pub type : Option WorkItemType
  pub summary : Option String
  pub acceptance_criteria : Option (List String)

pub record BriefConfirmedPayload : Type 0 where
  pub verdict : Decided
  pub feedback : Option String
  pub work_item : Option WorkItemCorrection

pub record TaskInput : Type 0 where
  pub id : String
  pub title : String
  pub summary : Option String
  pub description : Option String
  pub complexity : Option Complexity
  pub kind : Option TaskKind
  pub workflow : Option TaskWorkflow
  pub dependencies : List String
  pub files_to_modify : List String

pub record TasksConfirmedPayload : Type 0 where
  pub verdict : Decided
  pub feedback : Option String
  pub tasks : Option (List TaskInput)

pub record AssignmentConfirmedPayload : Type 0 where
  pub assignee : String
  pub task_id : Option String

pub record PlanConfirmedPayload : Type 0 where
  pub verdict : Decided
  pub feedback : Option String
  pub plan : Option String

pub record ReviewCompletedPayload : Type 0 where
  pub verdict : Verdict
  pub feedback : Option String

pub record MockupApprovedPayload : Type 0 where
  pub verdict : Decided
  pub feedback : Option String
  pub mockup_html : Option String

-- `TasksReviewedPayload`, `DocsUpdateConfirmedPayload`
pub record VerdictPayload : Type 0 where
  pub verdict : Decided
  pub feedback : Option String

pub record ImplementationCompletePayload : Type 0 where
  pub pr_url : Option String
  pub commit_sha : Option String
  pub summary : Option String

infixl 5 ◌>>=◌
abbrev ◌>>=◌ : {A B : Type 0} → Option A → (A → Option B) → Option B
none >>= f = none
some a >>= f = f a

abbrev verdict_in : Fields → Option Decided
verdict_in fs =
    with_default (read_literal decided_value decisions) Decided.approve (lookup "verdict" fs)

abbrev text_in : Option Json → Option (Option String)
text_in v = with_default (optional as_text) none v

unfoldable pub read_correction : Json → Option WorkItemCorrection
unfolding lookup all_known read_items read_literal work_item_type_value
read_correction (object fs) =
    guard
      ((all_known
          ("id" ∷ "title" ∷ "type" ∷ "summary" ∷ "acceptanceCriteria" ∷ "acceptance_criteria" ∷ [])
          fs)
        && one_each (("acceptanceCriteria", "acceptance_criteria") ∷ []) fs)
      (do
        id ← text_in (lookup "id" fs)
        title ← text_in (lookup "title" fs)
        type ←
            with_default (optional (read_literal work_item_type_value work_item_types)) none
              (lookup "type" fs)
        summary ← text_in (lookup "summary" fs)
        criteria ←
            with_default (optional (read_list as_text)) none
              (by_alias "acceptanceCriteria" "acceptance_criteria" fs)
        some (record {
          id = id;
          title = title;
          type = type;
          summary = summary;
          acceptance_criteria = criteria;
        }))
read_correction _ = none

unfoldable pub read_brief_confirmed : Fields → Option BriefConfirmedPayload
unfolding lookup all_known read_literal decided_value read_correction
read_brief_confirmed fs =
    guard
      ((all_known ("verdict" ∷ "feedback" ∷ "workItem" ∷ "work_item" ∷ []) fs)
        && one_each (("workItem", "work_item") ∷ []) fs)
      (do
        verdict ← verdict_in fs
        feedback ← text_in (lookup "feedback" fs)
        work_item ←
            with_default (optional read_correction) none (by_alias "workItem" "work_item" fs)
        some (record { verdict = verdict; feedback = feedback; work_item = work_item }))

-- `Field(..., min_length=1, max_length=64)`, `Field(..., min_length=1)`
abbrev short_text : Json → Option String
short_text v = as_text v >>= λ t. guard (leb 1 (size t) && leb (size t) 64) (some t)

abbrev filled_text : Json → Option String
filled_text v = as_text v >>= λ t. guard (leb 1 (size t)) (some t)

unfoldable pub read_task_input : Json → Option TaskInput
unfolding lookup all_known read_items read_literal complexity_value kind_value workflow_value size
read_task_input (object fs) =
    guard
      ((all_known
          ("id" ∷ "title" ∷ "summary" ∷ "description" ∷ "complexity" ∷ "kind" ∷ "workflow"
            ∷ "dependencies" ∷ "filesToModify" ∷ "files_to_modify" ∷ [])
          fs)
        && one_each (("filesToModify", "files_to_modify") ∷ []) fs)
      (do
        id ← required short_text (lookup "id" fs)
        title ← required filled_text (lookup "title" fs)
        summary ← text_in (lookup "summary" fs)
        description ← text_in (lookup "description" fs)
        complexity ←
            with_default (optional (read_literal complexity_value complexities)) none
              (lookup "complexity" fs)
        kind ← with_default (optional (read_literal kind_value kinds)) none (lookup "kind" fs)
        workflow ←
            with_default (optional (read_literal workflow_value workflows)) none
              (lookup "workflow" fs)
        dependencies ← with_default (read_list as_text) [] (lookup "dependencies" fs)
        files ← with_default (read_list as_text) [] (by_alias "filesToModify" "files_to_modify" fs)
        some (record {
          id = id;
          title = title;
          summary = summary;
          description = description;
          complexity = complexity;
          kind = kind;
          workflow = workflow;
          dependencies = dependencies;
          files_to_modify = files;
        }))
read_task_input _ = none

-- `_non_empty_if_present`
abbrev non_empty : Option (List TaskInput) → Bool
non_empty none = true
non_empty (some []) = false
non_empty (some (_ ∷ _)) = true

unfoldable pub read_tasks_confirmed : Fields → Option TasksConfirmedPayload
unfolding lookup all_known read_items read_literal decided_value read_task_input
read_tasks_confirmed fs = guard (all_known ("verdict" ∷ "feedback" ∷ "tasks" ∷ []) fs) (do
  verdict ← verdict_in fs
  feedback ← text_in (lookup "feedback" fs)
  tasks ← with_default (optional (read_list read_task_input)) none (lookup "tasks" fs)
  guard (non_empty tasks) (some (record { verdict = verdict; feedback = feedback; tasks = tasks })))

-- `_non_empty_assignee`
unfoldable pub read_assignment_confirmed : Fields → Option AssignmentConfirmedPayload
unfolding lookup all_known is_blank
read_assignment_confirmed fs =
    guard
      ((all_known ("assignee" ∷ "taskId" ∷ "task_id" ∷ []) fs)
        && one_each (("taskId", "task_id") ∷ []) fs)
      (do
        assignee ← required as_text (lookup "assignee" fs)
        task_id ← text_in (by_alias "taskId" "task_id" fs)
        guard (not (is_blank assignee)) (some (record { assignee = assignee; task_id = task_id })))

unfoldable pub read_plan_confirmed : Fields → Option PlanConfirmedPayload
unfolding lookup all_known read_literal decided_value
read_plan_confirmed fs = guard (all_known ("verdict" ∷ "feedback" ∷ "plan" ∷ []) fs) (do
  verdict ← verdict_in fs
  feedback ← text_in (lookup "feedback" fs)
  plan ← text_in (lookup "plan" fs)
  some (record { verdict = verdict; feedback = feedback; plan = plan }))

unfoldable pub read_review_completed : Fields → Option ReviewCompletedPayload
unfolding lookup all_known read_literal verdict_value
read_review_completed fs = guard (all_known ("verdict" ∷ "feedback" ∷ []) fs) (do
  verdict ← required (read_literal verdict_value verdicts) (lookup "verdict" fs)
  feedback ← text_in (lookup "feedback" fs)
  some (record { verdict = verdict; feedback = feedback }))

unfoldable pub read_mockup_approved : Fields → Option MockupApprovedPayload
unfolding lookup all_known read_literal decided_value
read_mockup_approved fs =
    guard
      ((all_known ("verdict" ∷ "feedback" ∷ "mockupHtml" ∷ "mockup_html" ∷ []) fs)
        && one_each (("mockupHtml", "mockup_html") ∷ []) fs)
      (do
        verdict ← verdict_in fs
        feedback ← text_in (lookup "feedback" fs)
        html ← text_in (by_alias "mockupHtml" "mockup_html" fs)
        some (record { verdict = verdict; feedback = feedback; mockup_html = html }))

unfoldable pub read_verdict_payload : Fields → Option VerdictPayload
unfolding lookup all_known read_literal decided_value
read_verdict_payload fs = guard (all_known ("verdict" ∷ "feedback" ∷ []) fs) (do
  verdict ← verdict_in fs
  feedback ← text_in (lookup "feedback" fs)
  some (record { verdict = verdict; feedback = feedback }))

unfoldable pub read_implementation_complete : Fields → Option ImplementationCompletePayload
unfolding lookup all_known
read_implementation_complete fs =
    guard
      ((all_known ("prUrl" ∷ "pr_url" ∷ "commitSha" ∷ "commit_sha" ∷ "summary" ∷ []) fs)
        && one_each (("prUrl", "pr_url") ∷ ("commitSha", "commit_sha") ∷ []) fs)
      (do
        pr_url ← text_in (by_alias "prUrl" "pr_url" fs)
        commit_sha ← text_in (by_alias "commitSha" "commit_sha" fs)
        summary ← text_in (lookup "summary" fs)
        some (record { pr_url = pr_url; commit_sha = commit_sha; summary = summary }))

-- ===== src/Memory/RoundTrip.antt =====
-- What is written under the namespace is read back.
use carestechs_agent_orchest.Prelude.{
  String, Bool, false, Option, none, some, List, [], ◌∷◌, any, str_eq, ◌≡◌, refl, arith,
}
use carestechs_agent_orchest.Enums.Lifecycle.{WorkItemType, work_item_type_value}
use carestechs_agent_orchest.Json.Value.{
  ℤ, Json, bool, int, text, object, Fields, lookup, get, as_text, merge,
}
use carestechs_agent_orchest.Json.Laws.{lookup-set_same, lookup-set_other, is_empty-set}
use carestechs_agent_orchest.Memory.Shape.{
  WorkItemRef, TaskProgress, Complexity, TaskKind, TaskWorkflow, Verdict, LifecycleTask,
  LifecycleReview, LifecycleMemory,
}
use carestechs_agent_orchest.Memory.Codec.{
  Lax, optional, dump_optional, read_items, read_dict, dump_items, dump_dict, read_list, dump_texts,
  all_known, progress_value, complexity_value, kind_value, workflow_value, verdict_value,
  read_literal, progresses, complexities, kinds, workflows, verdicts, work_item_types,
  dump_work_item, dump_task, dump_review, to_run_memory, read_work_item, read_task, read_review,
  model_validate,
}
use carestechs_agent_orchest.Memory.Store.{
  write_lifecycle_memory, read_lifecycle_memory, read_nested,
}

-- A reader that undoes a dump.
record Inverse {A : Type 0} (read : Json → Option A) (dump : A → Json) : Type 0 where
  at : (a : A) → read (dump a) ≡ some a

module _ {A : Type 0} (read : Json → Option A) (dump : A → Json) (inverse : Inverse read dump) where
  read_items-dump_items : (xs : List A) → read_items read (dump_items dump xs) ≡ some xs
  unfolding read_items dump_items
  read_items-dump_items [] = refl
  read_items-dump_items (x ∷ xs) = ground (arith, inverse.at x, read_items-dump_items xs)

  read_dict-dump_dict : (xs : List (String × A)) → read_dict read (dump_dict dump xs) ≡ some xs
  unfolding read_dict dump_dict
  read_dict-dump_dict [] = refl
  read_dict-dump_dict ((k, x) ∷ xs) = ground (arith, inverse.at x, read_dict-dump_dict xs)

texts_inverse : (ts : List String) → read_list as_text (dump_texts ts) ≡ some ts
texts_inverse ts = read_items-dump_items as_text text (record { at = λ t. refl }) ts

read_type :
    (t : WorkItemType)
    → read_literal work_item_type_value work_item_types (text (work_item_type_value t)) ≡ some t
unfolding read_literal work_item_type_value
read_type WorkItemType.feat = refl
read_type WorkItemType.bug = refl
read_type WorkItemType.imp = refl

read_progress :
    (p : TaskProgress) → read_literal progress_value progresses (text (progress_value p)) ≡ some p
unfolding read_literal progress_value
read_progress TaskProgress.pending = refl
read_progress TaskProgress.in_progress = refl
read_progress TaskProgress.completed = refl
read_progress TaskProgress.failed = refl

read_complexity :
    (c : Complexity)
    → read_literal complexity_value complexities (text (complexity_value c)) ≡ some c
unfolding read_literal complexity_value
read_complexity Complexity.small = refl
read_complexity Complexity.medium = refl
read_complexity Complexity.large = refl

read_kind : (k : TaskKind) → read_literal kind_value kinds (text (kind_value k)) ≡ some k
unfolding read_literal kind_value
read_kind TaskKind.feature = refl
read_kind TaskKind.mockup = refl
read_kind TaskKind.bug = refl
read_kind TaskKind.chore = refl

read_workflow :
    (w : Option TaskWorkflow)
    → optional
        (read_literal workflow_value workflows)
        (dump_optional (λ x. text (workflow_value x)) w)
      ≡ some w
unfolding read_literal workflow_value
read_workflow none = refl
read_workflow (some TaskWorkflow.standard) = refl
read_workflow (some TaskWorkflow.mockup_first) = refl
read_workflow (some TaskWorkflow.investigation_first) = refl

read_verdict : (v : Verdict) → read_literal verdict_value verdicts (text (verdict_value v)) ≡ some v
unfolding read_literal verdict_value
read_verdict Verdict.pass = refl
read_verdict Verdict.fail = refl

read_optional_text : (o : Option String) → optional as_text (dump_optional text o) ≡ some o
read_optional_text none = refl
read_optional_text (some t) = refl

module _ (lax : Lax) where
  work_item_inverse : (w : WorkItemRef) → read_work_item lax (dump_work_item w) ≡ some w
  unfolding read_work_item dump_work_item lookup all_known any
  work_item_inverse w = ground (arith, texts_inverse w.acceptance_criteria, read_type w.type)

module _ (lax : Lax) (to_int : (n : ℤ) → lax.to_int (int n) ≡ some n)
    (to_bool : (b : Bool) → lax.to_bool (bool b) ≡ some b) where
  task_inverse : (t : LifecycleTask) → read_task lax (dump_task t) ≡ some t
  unfolding read_task dump_task lookup all_known any
  task_inverse t = ground (
    arith,
    texts_inverse t.acceptance_criteria,
    texts_inverse t.depends_on,
    texts_inverse t.files_hint,
    read_progress t.status,
    read_complexity t.complexity,
    read_kind t.kind,
    read_workflow t.workflow,
    read_optional_text t.executor,
    read_optional_text t.plan_path,
    read_optional_text t.engine_item_id,
    to_bool t.submitted,
  )

  review_inverse : (r : LifecycleReview) → read_review lax (dump_review r) ≡ some r
  unfolding read_review dump_review lookup all_known any
  review_inverse r = ground (arith, to_int r.attempt, read_verdict r.verdict)

  optional_work_item :
      (o : Option WorkItemRef)
      → optional (read_work_item lax) (dump_optional dump_work_item o) ≡ some o
  unfolding dump_work_item
  optional_work_item none = refl
  optional_work_item (some w) = ground (arith, work_item_inverse lax w)

  model_validate-to_run_memory :
      (m : LifecycleMemory) → model_validate lax (to_run_memory m) ≡ some m
  unfolding model_validate to_run_memory lookup all_known any
  model_validate-to_run_memory m = ground (
    arith,
    optional_work_item m.work_item,
    read_items-dump_items (read_task lax) dump_task (record { at = task_inverse }) m.tasks,
    read_optional_text m.current_task_id,
    read_items-dump_items (read_review lax) dump_review (record { at = review_inverse })
        m.review_history,
    read_dict-dump_dict (read_list as_text) dump_texts (record { at = texts_inverse })
        m.files_touched_per_task,
    read_dict-dump_dict lax.to_int int (record { at = to_int }) m.correction_attempts,
    texts_inverse m.completed_task_ids,
  )

  -- If pydantic's `int` and `bool` take every integer and Boolean as it is, then memory that is
  -- written under its namespace into any data of the run is read back as it was, every task, review,
  -- count and optional field included, and every other key of the data is left as it was.
  pub read-write_lifecycle_memory :
      (m : LifecycleMemory) (whole : Fields) (key : String)
      → str_eq "lifecycle.v1" key ≡ false
      → (read_lifecycle_memory lax (merge whole (write_lifecycle_memory m)) ≡ some m)
        × (lookup key (merge whole (write_lifecycle_memory m)) ≡ lookup key whole)
  unfolding write_lifecycle_memory merge read_lifecycle_memory read_nested get
  read-write_lifecycle_memory m whole key other = (
    ground (
      arith,
      model_validate-to_run_memory m,
      is_empty-set "lifecycle.v1" (object (to_run_memory m)) whole,
      lookup-set_same "lifecycle.v1" (object (to_run_memory m)) whole,
    ),
    lookup-set_other "lifecycle.v1" key (object (to_run_memory m)) whole other,
  )

-- ===== src/Checkpoints/Tests.antt =====
-- Two rejections of a plan under a bound of two, and a task list of two tasks.
use carestechs_agent_orchest.Prelude.{String, false, Option, none, some, [], ◌∷◌, ◌≡◌, refl}
use carestechs_agent_orchest.Flow.Plain.{plain}
use carestechs_agent_orchest.Json.Value.{
  Json, text, array, object, nil, cons, Fields, end, field, get, lookup,
}
use carestechs_agent_orchest.Memory.Shape.{Verdict, LifecycleReview, LifecycleMemory, empty_memory}
use carestechs_agent_orchest.Memory.Store.{read_lifecycle_memory}
use carestechs_agent_orchest.Flow.Predicates.{
  from_last, review_passed, checkpoint_rejections_under_bound,
}
use carestechs_agent_orchest.Runtime.Bookkeeping.{apply_patch}
use carestechs_agent_orchest.Checkpoints.Payloads.{
  Decided, TaskInput, TasksConfirmedPayload, read_tasks_confirmed,
}
use carestechs_agent_orchest.Checkpoints.Patches.{apply_tasks_correction, next_task, patch_review}
use carestechs_agent_orchest.Checkpoints.Budget.{rejected, rejected-under_bound}
use carestechs_agent_orchest.Checkpoints.Curated.{Curates, apply_tasks_correction-read}
use carestechs_agent_orchest.Checkpoints.Reviews.{review_passed-unseen}

rejected-under_bound_example :
    (after : Fields) × (rejected plain "confirm_plan" (λ n. some "too long") 2 end ≡ some after)
    × (checkpoint_rejections_under_bound plain after none ≡ some false)
unfolding get
rejected-under_bound_example =
    rejected-under_bound plain "confirm_plan" (λ n. some "too long") 2 2 end none refl refl

abbrev input_of : String → TaskInput
input_of id = record {
  id = id;
  title = "Title";
  summary = none;
  description = none;
  complexity = none;
  kind = none;
  workflow = none;
  dependencies = [];
  files_to_modify = [];
}

abbrev raw_task : String → Json
raw_task id = object (field "id" (text id) (field "title" (text "Title") end))

abbrev payload : Fields
payload = field "tasks" (array (cons (raw_task "T-2") (cons (raw_task "T-1") nil))) end

abbrev parsed : TasksConfirmedPayload
parsed = record {
  verdict = Decided.approve;
  feedback = none;
  tasks = some (input_of "T-2" ∷ input_of "T-1" ∷ []);
}

abbrev or_end : Option Fields → Fields
or_end none = end
or_end (some fields) = fields

abbrev memory : Fields
memory = or_end (some (field "plans" (object end) end))

apply_tasks_correction-read_example :
    (after : LifecycleMemory) × (read_lifecycle_memory plain.lax
        (apply_patch (or_end (apply_tasks_correction plain payload memory)) memory)
      ≡ some after)
    × Curates [] (input_of "T-2" ∷ input_of "T-1" ∷ []) after.tasks
    × (after.current_task_id ≡ next_task [] after.tasks)
    × (after.completed_task_ids ≡ [])
    × (after.work_item ≡ none)
    × (after.review_history ≡ [])
    × (after.files_touched_per_task ≡ [])
    × (after.correction_attempts ≡ [])
    × (lookup "plans" (apply_patch (or_end (apply_tasks_correction plain payload memory)) memory)
        ≡ lookup "plans" memory)
unfolding read_tasks_confirmed apply_tasks_correction read_lifecycle_memory
apply_tasks_correction-read_example =
    apply_tasks_correction-read plain (λ n. refl) (λ b. refl) payload memory
      (or_end (apply_tasks_correction plain payload memory)) parsed
      (input_of "T-2" ∷ input_of "T-1" ∷ []) empty_memory "plans" refl refl refl refl refl refl

abbrev failed_review : Fields
failed_review = field "task_id" (text "T-1") (field "verdict" (text "fail") end)

review_passed-unseen_example :
    (after : LifecycleMemory) × (review : LifecycleReview) × (read_lifecycle_memory plain.lax
        (apply_patch (or_end (patch_review plain failed_review memory)) memory)
      ≡ some after)
    × (after.review_history ≡ review ∷ [])
    × (review.task_id ≡ "T-1")
    × (review.verdict ≡ Verdict.fail)
    × (review_passed plain
          (apply_patch (or_end (patch_review plain failed_review memory)) memory)
          none
        ≡ none)
unfolding patch_review read_lifecycle_memory from_last get
review_passed-unseen_example =
    review_passed-unseen plain (λ n. refl) (λ b. refl) failed_review memory
      (or_end (patch_review plain failed_review memory)) empty_memory none refl refl refl refl

-- ===== src/Checkpoints/Curated.antt =====
-- The task list that an operator curates is the one that the next node reads.
use carestechs_agent_orchest.Prelude.{
  Option, none, false, ◌++◌, find, str_eq, subst, if◌then◌else◌, String, Bool, some, List, [], ◌∷◌,
  map, str_eq_iff, ◌≡◌, refl, ap, ◌∙◌, arith,
}
use carestechs_agent_orchest.Json.Value.{ℤ, int, bool, Fields, lookup, merge}
use carestechs_agent_orchest.Memory.Shape.{
  TaskProgress, Complexity, TaskKind, TaskWorkflow, LifecycleTask, LifecycleMemory,
}
use carestechs_agent_orchest.Memory.Store.{read_lifecycle_memory, write_lifecycle_memory}
use carestechs_agent_orchest.Memory.RoundTrip.{read-write_lifecycle_memory}
use carestechs_agent_orchest.Flow.Predicates.{Env}
use carestechs_agent_orchest.Runtime.Bookkeeping.{apply_patch}
use carestechs_agent_orchest.Checkpoints.Payloads.{
  Decided, TaskInput, TasksConfirmedPayload, read_tasks_confirmed,
}
use carestechs_agent_orchest.Checkpoints.Patches.{
  apply_tasks_correction, curate_tasks, curated, last_with, next_task, or_text, or_value, or_list,
}

last_with-id :
    (id : String) (tasks : List LifecycleTask) (t : LifecycleTask)
    → last_with id tasks ≡ some t
    → t.id ≡ id
unfolding last_with
last_with-id id [] t h = ground arith
last_with-id id (x ∷ rest) t h = ground (arith, last_with-id id rest t, str_eq_iff x.id id)

-- The last task of an id, from the end of the list.
abbrev pub reversed : List LifecycleTask → List LifecycleTask
reversed [] = []
reversed (t ∷ rest) = reversed rest ++ (t ∷ [])

abbrev pub task_before : String → List LifecycleTask → Option LifecycleTask
task_before id tasks = find (λ (t : LifecycleTask). str_eq t.id id) (reversed tasks)

find-append :
    (p : LifecycleTask → Bool) (xs : List LifecycleTask) (t : LifecycleTask)
    → find p (xs ++ (t ∷ []))
      ≡ elim (find p xs) [ some x ↦ some x | none ↦ if p t then some t else none ]
unfolding find
find-append p [] t = ground arith
find-append p (x ∷ xs) t = ground (arith, find-append p xs t)

last_with-before :
    (id : String) (tasks : List LifecycleTask) → last_with id tasks ≡ task_before id tasks
unfolding last_with find
last_with-before id [] = refl
last_with-before id (x ∷ rest) = ground (
  arith,
  last_with-before id rest,
  find-append (λ (t : LifecycleTask). str_eq t.id id) (reversed rest) x,
)

-- A column of a task that was there, or its default.
abbrev pub before_or : {A : Type 0} → Option LifecycleTask → (LifecycleTask → A) → A → A
before_or none column default = default
before_or (some t) column default = column t

-- What a task of the new list has of the operator's entry, and what of the task of that id that was
-- there before.
pub record Agrees (e : TaskInput) (old : Option LifecycleTask) (t : LifecycleTask) : Type 0 where
  pub id : t.id ≡ e.id
  pub title : t.title ≡ e.title
  pub description :
      t.description
      ≡ or_text e.description (before_or old (λ o. o.description) (or_text e.summary ""))
  pub complexity :
      t.complexity ≡ or_value e.complexity (before_or old (λ o. o.complexity) Complexity.medium)
  pub kind : t.kind ≡ or_value e.kind (before_or old (λ o. o.kind) TaskKind.feature)
  pub workflow :
      t.workflow ≡ elim e.workflow [ some w ↦ some w | none ↦ before_or old (λ o. o.workflow) none ]
  pub depends_on : t.depends_on ≡ or_list e.dependencies (before_or old (λ o. o.depends_on) [])
  pub files_hint : t.files_hint ≡ or_list e.files_to_modify (before_or old (λ o. o.files_hint) [])
  pub status : t.status ≡ before_or old (λ o. o.status) TaskProgress.pending
  pub submitted : t.submitted ≡ before_or old (λ o. o.submitted) false
  pub executor : t.executor ≡ before_or old (λ o. o.executor) none
  pub plan_path : t.plan_path ≡ before_or old (λ o. o.plan_path) none
  pub engine_item_id : t.engine_item_id ≡ before_or old (λ o. o.engine_item_id) none
  pub acceptance_criteria : t.acceptance_criteria ≡ before_or old (λ o. o.acceptance_criteria) []

-- The new list has one task for each entry, in the order of the entries.
pub data Curates (old : List LifecycleTask) : List TaskInput → List LifecycleTask → Type 0 where
  none_left : Curates old [] []
  one_more :
      (e : TaskInput) (t : LifecycleTask) (entries : List TaskInput) (tasks : List LifecycleTask)
      → Agrees e (task_before e.id old) t
      → Curates old entries tasks
      → Curates old (e ∷ entries) (t ∷ tasks)

curated-Agrees :
    (e : TaskInput) (old : Option LifecycleTask)
    → ((t : LifecycleTask) → old ≡ some t → t.id ≡ e.id)
    → Agrees e old (curated e old)
unfolding curated
curated-Agrees e (some t) same = record {
  id = same t refl;
  title = refl;
  description = refl;
  complexity = refl;
  kind = refl;
  workflow = refl;
  depends_on = refl;
  files_hint = refl;
  status = refl;
  submitted = refl;
  executor = refl;
  plan_path = refl;
  engine_item_id = refl;
  acceptance_criteria = refl;
}
curated-Agrees e none same = record {
  id = refl;
  title = refl;
  description = refl;
  complexity = refl;
  kind = refl;
  workflow = or_none e.workflow;
  depends_on = or_empty e.dependencies;
  files_hint = or_empty e.files_to_modify;
  status = refl;
  submitted = refl;
  executor = refl;
  plan_path = refl;
  engine_item_id = refl;
  acceptance_criteria = refl;
}
  where
    or_none : (o : Option TaskWorkflow) → o ≡ elim o [ some w ↦ some w | none ↦ none ]
    or_none none = refl
    or_none (some w) = refl

    or_empty : (ts : List String) → ts ≡ or_list ts []
    or_empty [] = refl
    or_empty (t ∷ ts) = refl

curate-Curates :
    (old : List LifecycleTask) (entries : List TaskInput)
    → Curates old entries (map (λ (e : TaskInput). curated e (last_with e.id old)) entries)
curate-Curates old [] = none_left
curate-Curates old (e ∷ rest) =
    one_more e (curated e (last_with e.id old)) rest _
      (subst (λ o. Agrees e o (curated e (last_with e.id old))) (last_with-before e.id old)
        (curated-Agrees e (last_with e.id old) (last_with-id e.id old)))
      (curate-Curates old rest)

module _ (env : Env) (to_int : (n : ℤ) → env.lax.to_int (int n) ≡ some n)
    (to_bool : (b : Bool) → env.lax.to_bool (bool b) ≡ some b) where
  patch_written :
      (payload memory patch : Fields) (parsed : TasksConfirmedPayload) (entries : List TaskInput)
      (m : LifecycleMemory)
      → read_tasks_confirmed payload ≡ some parsed
      → parsed.verdict ≡ Decided.approve
      → parsed.tasks ≡ some entries
      → read_lifecycle_memory env.lax memory ≡ some m
      → apply_tasks_correction env payload memory ≡ some patch
      → patch ≡ write_lifecycle_memory (curate_tasks entries m)
  unfolding apply_tasks_correction
  patch_written payload memory patch parsed entries m p v t r h = ground (arith, p, v, t, r, h)

  read_written :
      (m : LifecycleMemory) (memory : Fields) (key : String)
      → str_eq "lifecycle.v1" key ≡ false
      → (read_lifecycle_memory env.lax (apply_patch (write_lifecycle_memory m) memory) ≡ some m)
        × (lookup key (apply_patch (write_lifecycle_memory m) memory) ≡ lookup key memory)
  unfolding write_lifecycle_memory apply_patch merge
  read_written m memory key other =
      read-write_lifecycle_memory env.lax to_int to_bool m memory key other

  -- If pydantic's `int` and `bool` take every integer and Boolean as it is, then after a confirmation
  -- with a list of tasks the loop reads from the memory one task for each entry, in the operator's
  -- order. A task has the entry's id and title, and its description, complexity, kind, workflow,
  -- dependencies and files where the entry gives them; the other columns, its progress included, are
  -- those of the last task of that id that was there, or the defaults. The current task is the first
  -- that is not completed. The work item, the reviews, the files touched, the counts of corrections and
  -- the completed ids are as they were, and so is every other key of the data.
  pub apply_tasks_correction-read :
      (payload memory patch : Fields) (parsed : TasksConfirmedPayload) (entries : List TaskInput)
      (m : LifecycleMemory) (key : String)
      → read_tasks_confirmed payload ≡ some parsed
      → parsed.verdict ≡ Decided.approve
      → parsed.tasks ≡ some entries
      → read_lifecycle_memory env.lax memory ≡ some m
      → apply_tasks_correction env payload memory ≡ some patch
      → str_eq "lifecycle.v1" key ≡ false
      → (after : LifecycleMemory) × (read_lifecycle_memory env.lax (apply_patch patch memory)
          ≡ some after)
        × Curates m.tasks entries after.tasks
        × (after.current_task_id ≡ next_task m.completed_task_ids after.tasks)
        × (after.completed_task_ids ≡ m.completed_task_ids)
        × (after.work_item ≡ m.work_item)
        × (after.review_history ≡ m.review_history)
        × (after.files_touched_per_task ≡ m.files_touched_per_task)
        × (after.correction_attempts ≡ m.correction_attempts)
        × (lookup key (apply_patch patch memory) ≡ lookup key memory)
  unfolding curate_tasks
  apply_tasks_correction-read payload memory patch parsed entries m key p v t r h other =
      let written = patch_written payload memory patch parsed entries m p v t r h in
      let back = read_written (curate_tasks entries m) memory key other in
      (
        curate_tasks entries m,
        ap (λ q. read_lifecycle_memory env.lax (apply_patch q memory)) written ∙ back.0,
        curate-Curates m.tasks entries,
        refl,
        refl,
        refl,
        refl,
        refl,
        refl,
        ap (λ q. lookup key (apply_patch q memory)) written ∙ back.1,
      )

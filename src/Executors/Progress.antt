-- ===== src/Executors/Progress.antt =====
-- The loop over the tasks of a work item comes to its end.
use carestechs_agent_orchest.Prelude.{
  ℕ, ◌<◌, ◌≤◌, String, Bool, true, false, not, ◌||◌, Option, some, is_some, List, [], ◌∷◌, ◌++◌,
  any, find, count, str_eq, str_eq_iff, ◌≡◌, refl, sym, subst, arith, Bool-cases, inl, inr,
}
use carestechs_agent_orchest.Json.Value.{Fields}
use carestechs_agent_orchest.Memory.Shape.{LifecycleTask, LifecycleMemory}
use carestechs_agent_orchest.Memory.Store.{read_lifecycle_memory}
use carestechs_agent_orchest.Flow.Predicates.{Env, tasks_remaining}
use carestechs_agent_orchest.Checkpoints.Patches.{next_task}
use carestechs_agent_orchest.Executors.Bodies.{complete, finish_task}

-- A task that is not completed, and how many there are.
abbrev pub is_open : List String → LifecycleTask → Bool
is_open completed t = not (any (str_eq t.id) completed)

abbrev pub open_tasks : LifecycleMemory → ℕ
open_tasks m = count (is_open m.completed_task_ids) m.tasks

any-append :
    (p : String → Bool) (xs : List String) (y : String) → any p (xs ++ (y ∷ [])) ≡ (any p xs || p y)
unfolding any
any-append p [] y = ground arith
any-append p (x ∷ xs) y = ground (arith, any-append p xs y)

-- One more completed id opens no task.
open-append :
    (completed : List String) (id : String) (tasks : List LifecycleTask)
    → count (is_open (completed ++ (id ∷ []))) tasks ≤ count (is_open completed) tasks
unfolding count
open-append completed id [] = ground arith
open-append completed id (t ∷ rest) =
    ground (arith, open-append completed id rest, any-append (str_eq t.id) completed id)

-- And closes the task of that id, where it was open.
open-append_less :
    (completed : List String) (id : String) (tasks : List LifecycleTask)
    → any (λ t. str_eq t.id id) tasks ≡ true
    → any (str_eq id) completed ≡ false
    → count (is_open (completed ++ (id ∷ []))) tasks < count (is_open completed) tasks
unfolding count any
open-append_less completed id [] h k = ground arith
open-append_less completed id (t ∷ rest) h k = elim (Bool-cases (str_eq t.id id)) [
  | inl same ↦
      let open_now : any (str_eq t.id) completed ≡ false =
        subst (λ x. any (str_eq x) completed ≡ false) (sym ((str_eq_iff t.id id).0 same)) k in
      ground (
        arith,
        open_now,
        same,
        any-append (str_eq t.id) completed id,
        open-append completed id rest,
      )
  | inr other ↦
      ground
        (arith, other, any-append (str_eq t.id) completed id, open-append_less completed id rest)
]

next_task-open :
    (completed : List String) (tasks : List LifecycleTask)
    → any (is_open completed) tasks ≡ is_some (next_task completed tasks)
unfolding any next_task find
next_task-open completed [] = refl
next_task-open completed (t ∷ rest) = ground (arith, next_task-open completed rest)

completes :
    (current : Option String) (id : String) (completed : List String)
    → current ≡ some id
    → any (str_eq id) completed ≡ false
    → complete current completed ≡ completed ++ (id ∷ [])
unfolding complete
completes current id completed c k = ground (arith, c, k)

-- Marking the current task as done, where it is one of the tasks and not completed yet, leaves fewer
-- tasks open than before; and where the memory that is written is read back, `tasks_remaining` sends the run back for another task exactly when there is a current one.
pub finish_task-open_tasks :
    (env : Env) (memory : Fields) (last : Option Fields) (m : LifecycleMemory) (id : String)
    → m.current_task_id ≡ some id
    → any (λ t. str_eq t.id id) m.tasks ≡ true
    → any (str_eq id) m.completed_task_ids ≡ false
    → read_lifecycle_memory env.lax memory ≡ some (finish_task m)
    → (open_tasks (finish_task m) < open_tasks m)
      × (tasks_remaining env memory last ≡ some (is_some (finish_task m).current_task_id))
unfolding finish_task tasks_remaining
finish_task-open_tasks env memory last m id c h k r =
    let e : complete m.current_task_id m.completed_task_ids ≡ m.completed_task_ids ++ (id ∷ []) =
      completes m.current_task_id id m.completed_task_ids c k in
    (
      subst (λ x. count (is_open x) m.tasks < open_tasks m) (sym e)
          (open-append_less m.completed_task_ids id m.tasks h k),
      ground (arith, r, next_task-open (complete m.current_task_id m.completed_task_ids) m.tasks),
    )

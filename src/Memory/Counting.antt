-- ===== src/Memory/Counting.antt =====
-- What the corrections tool counts.
use carestechs_agent_orchest.Prelude.{
  String, true, false, none, some, List, [], ◌∷◌, any, str_eq, str_eq_iff, ◌≡◌, refl, arith,
  if◌then◌else◌, Bool-cases, ◌⊎◌, inl, inr,
}
use carestechs_agent_orchest.Json.Value.{ℤ}
use carestechs_agent_orchest.Memory.Shape.{LifecycleMemory, LifecycleTask}
use carestechs_agent_orchest.Memory.Store.{
  attempts_of, set_attempts, add_one, count_correction, handle,
}

attempts_of-set_attempts :
    (key other : String) (n : ℤ) (counts : List (String × ℤ))
    → attempts_of other (set_attempts key n counts)
      ≡ (if str_eq key other then n else attempts_of other counts)
unfolding attempts_of set_attempts
attempts_of-set_attempts key other n [] = ground arith
attempts_of-set_attempts key other n ((k, m) ∷ rest) = ground (
  arith,
  str_eq_iff key other,
  str_eq_iff k key,
  str_eq_iff k other,
  attempts_of-set_attempts key other n rest,
)

-- `corrections` for a task raises exactly when the memory has no task of that id; else it adds one to
-- the task's count, from 0 where there is none, and leaves every other count, the tasks and the
-- current task as they were.
pub handle-attempts :
    (task_id other : String) (m : LifecycleMemory)
    → ((handle task_id m ≡ none) × (any (λ t. str_eq t.id task_id) m.tasks ≡ false))
      ⊎ ((after : LifecycleMemory) × (handle task_id m ≡ some after)
          × (any (λ t. str_eq t.id task_id) m.tasks ≡ true)
          × (attempts_of other after.correction_attempts ≡ (
              if str_eq task_id other
              then add_one (attempts_of task_id m.correction_attempts)
              else attempts_of other m.correction_attempts))
          × (after.tasks ≡ m.tasks)
          × (after.current_task_id ≡ m.current_task_id))
unfolding handle count_correction
handle-attempts task_id other m =
    elim (Bool-cases (any (λ (t : LifecycleTask). str_eq t.id task_id) m.tasks)) [
      | inl known ↦ inr (
        count_correction task_id m,
        ground arith,
        known,
        attempts_of-set_attempts task_id other (add_one (attempts_of task_id m.correction_attempts))
            m.correction_attempts,
        refl,
        refl,
      )
      | inr unknown ↦ inl (ground arith, unknown)
    ]

-- ===== src/Lifecycle/Tasks/Steps.antt =====
-- src/app/modules/ai/lifecycle/tasks.py: the internals that the transitions share.
use carestechs_agent_orchest.Prelude.{
  ℕ, String, Bool, false, not, ◌||◌, Option, none, some, is_blank, if◌then◌else◌, is_none, find,
  gets, or_raise, require, when, not_found, conflict, validation, ◌>>=◌,
}
use carestechs_agent_orchest.Enums.Lifecycle.{
  TaskStatus, same_task_status, task_status_value, ActorRole, same_actor_role, ApprovalStage,
}
use carestechs_agent_orchest.Lifecycle.Store.{
  Task, TaskAssignment, Db, Session, Ctx, Action, find_task, update_task, write, send_transition,
  is_active,
}
use carestechs_agent_orchest.Lifecycle.Matrix.{approval_matrix}

-- `status in _TERMINAL`
abbrev pub is_terminal : TaskStatus → Bool
is_terminal s = same_task_status s TaskStatus.done || same_task_status s TaskStatus.deferred

-- `feedback is None or not feedback.strip()`
abbrev pub has_feedback : Option String → Bool
has_feedback none = false
has_feedback (some s) = not (is_blank s)

abbrev pub require_feedback : Option String → Action Unit
require_feedback feedback = require (has_feedback feedback) validation

-- `_load_locked`
unfoldable pub load_task : ℕ → Action Task
load_task id = do found ← gets (λ (s : Session). find_task id s.db); or_raise found not_found

-- `_active_assignment`
abbrev pub find_active : ℕ → Db → Option TaskAssignment
find_active id db = find (is_active id) db.assignments

-- `task.status != expected` raises `_forbidden`.
abbrev pub require_status : TaskStatus → Task → Action Unit
require_status expected task = require (same_task_status task.status expected) conflict

-- A write of the status column. An UPDATE, with its `updated_at`, goes out only if it changes.
abbrev pub with_status : ℕ → TaskStatus → Task → Task
with_status now to t =
    if same_task_status t.status to then t else record t { status = to; updated_at = now }

-- `task.updated_at = datetime.now(UTC)`
abbrev pub touched : ℕ → Task → Task
touched now t = record t { updated_at = now }

-- `db.refresh(task)` and the return.
abbrev pub refresh : ℕ → Action Task
refresh id = do found ← gets (λ (s : Session). find_task id s.db); or_raise found not_found

module _ (ctx : Ctx) where
  -- `if engine is None: task.status = to`
  abbrev pub write_status : ℕ → TaskStatus → Action Unit
  write_status id to = when (is_none ctx.engine) (write (update_task id (with_status ctx.now to)))

  -- `_mirror_to_engine`
  abbrev pub mirror_to_engine : Task → TaskStatus → Option ℕ → String → Action Unit
  mirror_to_engine task to corr actor =
      send_transition ctx task.engine_item_id (task_status_value to) corr actor

-- `_matrix_or_forbidden`
abbrev pub matrix_or_forbidden : ℕ → ApprovalStage → ActorRole → Bool → Action Unit
matrix_or_forbidden id stage actor_role solo_dev = do
  assignment ← gets (λ (s : Session). find_active id s.db)
  require (same_actor_role actor_role (approval_matrix assignment stage solo_dev)) conflict

-- ===== src/Lifecycle/Store/Inserts.antt =====
-- INSERTs, with the primary keys, unique constraints and foreign keys of
-- src/app/modules/ai/models.py that decide whether the flush raises `IntegrityError`.
use carestechs_agent_orchest.Prelude.{
  ℕ, Bool, false, not, ◌&&◌, ◌||◌, Option, none, some, ◌∷◌, ◌==◌, str_eq, is_some, is_none, any,
  integrity, gets, require, ◌>>=◌, ◌>>◌,
}
use carestechs_agent_orchest.Lifecycle.Store.Rows.{
  WorkItem, Task, TaskAssignment, Approval, TaskPlan, TaskImplementation, PendingSignalContext,
  PendingAuxWrite,
}
use carestechs_agent_orchest.Lifecycle.Store.State.{
  Session, Action, find_task, find_work_item, write,
}

-- Two values of a nullable unique column clash when both are there and equal.
abbrev pub same_id : Option ℕ → Option ℕ → Bool
same_id none b = false
same_id (some a) none = false
same_id (some a) (some b) = a == b

abbrev pub clashes_work_item : WorkItem → WorkItem → Bool
clashes_work_item w v =
    v.id == w.id
    || str_eq v.external_ref w.external_ref
    || same_id v.engine_item_id w.engine_item_id

abbrev pub clashes_task : Task → Task → Bool
clashes_task t u =
    u.id == t.id
    || (u.work_item_id == t.work_item_id && str_eq u.external_ref t.external_ref)
    || same_id u.engine_item_id t.engine_item_id

-- `superseded_at IS NULL`, for one task: at most one such row, by a partial unique index.
abbrev pub is_active : ℕ → TaskAssignment → Bool
is_active task_id a = a.task_id == task_id && is_none a.superseded_at

unfoldable pub insert_work_item : WorkItem → Action Unit
insert_work_item w = do
  clash ← gets (λ (s : Session). any (clashes_work_item w) s.db.work_items)
  require (not clash) integrity
  write (λ db. record db { work_items = w ∷ db.work_items })

unfoldable pub insert_task : Task → Action Unit
insert_task t = do
  parent ← gets (λ (s : Session). find_work_item t.work_item_id s.db)
  clash ← gets (λ (s : Session). any (clashes_task t) s.db.tasks)
  require (is_some parent && not clash) integrity
  write (λ db. record db { tasks = t ∷ db.tasks })

-- The foreign key `task_id` of the auxiliary tables.
unfoldable pub references_task : ℕ → Action Unit
references_task id = do
  task ← gets (λ (s : Session). find_task id s.db)
  require (is_some task) integrity

unfoldable pub insert_assignment : TaskAssignment → Action Unit
unfolding references_task
insert_assignment a = do
  references_task a.task_id
  clash ← gets (λ (s : Session). any (is_active a.task_id) s.db.assignments)
  require (not (is_none a.superseded_at && clash)) integrity
  write (λ db. record db { assignments = a ∷ db.assignments })

unfoldable pub insert_approval : Approval → Action Unit
unfolding references_task
insert_approval a = do
  references_task a.task_id
  write (λ db. record db { approvals = a ∷ db.approvals })

unfoldable pub insert_plan : TaskPlan → Action Unit
unfolding references_task
insert_plan p = do references_task p.task_id; write (λ db. record db { plans = p ∷ db.plans })

unfoldable pub insert_implementation : TaskImplementation → Action Unit
unfolding references_task
insert_implementation i = do
  references_task i.task_id
  write (λ db. record db { implementations = i ∷ db.implementations })

unfoldable pub insert_context : PendingSignalContext → Action Unit
insert_context c = do
  clash ← gets (λ (s : Session). any (λ d. d.correlation_id == c.correlation_id) s.db.contexts)
  require (not clash) integrity
  write (λ db. record db { contexts = c ∷ db.contexts })

unfoldable pub insert_aux_write : PendingAuxWrite → Action Unit
insert_aux_write p = do
  clash ← gets (λ (s : Session). any (λ q. q.correlation_id == p.correlation_id) s.db.aux_writes)
  require (not clash) integrity
  write (λ db. record db { aux_writes = p ∷ db.aux_writes })

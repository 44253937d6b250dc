-- ===== src/Lifecycle/Delivery/Keys.antt =====
-- A signal whose key is recorded already does nothing but answer.
use carestechs_agent_orchest.Prelude.{
  ◌≡◌, Bool, false, some, ok, err, not_found, arith, find, is_some, if◌then◌else◌,
}
use carestechs_agent_orchest.Lifecycle.Store.{
  Ctx, Session, LifecycleSignal, Db, find_task, find_work_item,
}
use carestechs_agent_orchest.Lifecycle.Idempotency.{has_key, check_and_record}
use carestechs_agent_orchest.Lifecycle.Tasks.{load_task}
use carestechs_agent_orchest.Lifecycle.WorkItems.{load_work_item}
use carestechs_agent_orchest.Lifecycle.Signals.{
  guarded_work_item_signal, lock_work_item_signal, unlock_work_item_signal, close_work_item_signal,
  approve_task_signal, reject_task_signal, assign_task_signal, defer_task_signal,
  submit_plan_signal, approve_plan_signal, reject_plan_signal, submit_implementation_signal,
  approve_review_signal, reject_review_signal,
}
use carestechs_agent_orchest.Lifecycle.Delivery.Requests.{
  Signal, lock, unlock, close, approve_task, reject_task, assign_task, defer_task, submit_plan,
  approve_plan, reject_plan, submit_implementation, approve_review, reject_review, handle,
  signal_key, entity,
}

-- Whether the entity of the signal is there: a work item for S2 to S4, else a task.
unfoldable pub is_known : Signal → Db → Bool
is_known (lock id _ _) db = is_some (find_work_item id db)
is_known (unlock id _) db = is_some (find_work_item id db)
is_known (close id _ _) db = is_some (find_work_item id db)
is_known signal db = is_some (find_task (entity signal) db)

module _ (ctx : Ctx) (s : Session) (row : LifecycleSignal) where
  -- A signal S2 to S14 whose key is recorded changes nothing in the session. It is answered as not
  -- new when its entity is there, and as not found otherwise.
  pub replay :
      (signal : Signal)
      → find (has_key (signal_key ctx signal)) s.db.signals ≡ some row
      → handle ctx signal s ≡ ((if is_known signal s.db then ok false else err not_found), s)
  unfolding check_and_record load_task load_work_item guarded_work_item_signal handle signal_key
      is_known entity lock_work_item_signal unlock_work_item_signal close_work_item_signal
      approve_task_signal reject_task_signal assign_task_signal defer_task_signal submit_plan_signal
      approve_plan_signal reject_plan_signal submit_implementation_signal approve_review_signal
      reject_review_signal
  replay (lock id reason actor) h = ground arith
  replay (unlock id actor) h = ground arith
  replay (close id notes actor) h = ground arith
  replay (approve_task id actor) h = ground arith
  replay (reject_task id feedback actor) h = ground arith
  replay (assign_task id kind assignee actor) h = ground arith
  replay (defer_task id reason actor) h = ground arith
  replay (submit_plan id path sha actor) h = ground arith
  replay (approve_plan id actor role solo) h = ground arith
  replay (reject_plan id feedback actor role solo) h = ground arith
  replay (submit_implementation id url sha summary actor) h = ground arith
  replay (approve_review id actor role solo) h = ground arith
  replay (reject_review id feedback actor role solo) h = ground arith

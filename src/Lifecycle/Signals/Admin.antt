-- ===== src/Lifecycle/Signals/Admin.antt =====
-- src/app/modules/ai/lifecycle/service.py: S2 to S4, the admin's signals on a work item.
use carestechs_agent_orchest.Prelude.{
  ℕ, String, not, if◌then◌else◌, Bool, true, false, Option, none, [], ◌∷◌, pure, ◌>>=◌, ◌>>◌,
}
use carestechs_agent_orchest.Lifecycle.Store.{WorkItem, Payload, Ctx, Action, commit}
use carestechs_agent_orchest.Lifecycle.WorkItems.{
  load_work_item, lock_work_item, unlock_work_item, close_work_item,
}
use carestechs_agent_orchest.Lifecycle.Idempotency.{compute_signal_key, check_and_record}

module _ (ctx : Ctx) where
  -- `_guarded_work_item_signal`. `_reload_work_item` is a load without the lock.
  unfoldable pub guarded_work_item_signal :
      (work_item_id : ℕ) (signal_name : String) (payload : Payload)
      (transition : ℕ → String → Option ℕ → Action WorkItem) (actor : String)
      → Action (WorkItem × Bool)
  guarded_work_item_signal work_item_id signal_name payload transition actor = do
    let key = compute_signal_key ctx work_item_id signal_name payload
    (is_new, _) ← check_and_record ctx key work_item_id signal_name
    if not is_new
        then (do wi ← load_work_item work_item_id; pure (wi, false))
        else do wi ← transition work_item_id actor none; commit; pure (wi, true)

  -- S2
  unfoldable pub lock_work_item_signal : ℕ → Option String → String → Action (WorkItem × Bool)
  lock_work_item_signal id reason actor =
      guarded_work_item_signal id "lock-work-item" (("reason", reason) ∷ []) (lock_work_item ctx)
        actor

  -- S3
  unfoldable pub unlock_work_item_signal : ℕ → String → Action (WorkItem × Bool)
  unlock_work_item_signal id actor =
      guarded_work_item_signal id "unlock-work-item" [] (unlock_work_item ctx) actor

  -- S4
  unfoldable pub close_work_item_signal : ℕ → Option String → String → Action (WorkItem × Bool)
  close_work_item_signal id notes actor =
      guarded_work_item_signal id "close-work-item" (("notes", notes) ∷ []) (close_work_item ctx)
        actor

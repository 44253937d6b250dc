-- ===== src/Lifecycle/WorkItems.antt =====
-- src/app/modules/ai/lifecycle/work_items.py: the transitions W1 to W6 of a work item.
use carestechs_agent_orchest.Prelude.{
  ℕ, String, Bool, true, false, not, ◌&&◌, Option, none, some, ◌==◌, if◌then◌else◌, is_none, count,
  pure, gets, or_raise, require, when, not_found, conflict, ◌>>=◌, ◌>>◌,
}
use carestechs_agent_orchest.Enums.Lifecycle.{
  WorkItemStatus, same_work_item_status, work_item_status_value, WorkItemType,
}
use carestechs_agent_orchest.Lifecycle.Store.{
  WorkItem, Task, Session, Ctx, Action, find_work_item, update_work_item, write, fresh,
  insert_work_item, send_transition, create_engine_item,
}
use carestechs_agent_orchest.Lifecycle.Tasks.{is_terminal}

-- `_load_locked`, and the refresh at a transition's end.
unfoldable pub load_work_item : ℕ → Action WorkItem
load_work_item id = do
  found ← gets (λ (s : Session). find_work_item id s.db)
  or_raise found not_found

abbrev require_status : WorkItemStatus → WorkItem → Action Unit
require_status expected wi = require (same_work_item_status wi.status expected) conflict

-- A write of the status column. An UPDATE, with its `updated_at`, goes out only if it changes.
abbrev pub with_status : ℕ → WorkItemStatus → WorkItem → WorkItem
with_status now to w =
    if same_work_item_status w.status to then w else record w { status = to; updated_at = now }

-- The columns that a close writes; the status is the engine's to write where there is one.
abbrev pub closed_by : Ctx → String → WorkItem → WorkItem
closed_by ctx actor w = record w {
  status = if is_none ctx.engine then WorkItemStatus.closed else w.status;
  closed_at = some ctx.now;
  closed_by = some actor;
  updated_at = ctx.now;
}

abbrev pub is_child : ℕ → Task → Bool
is_child id t = t.work_item_id == id

abbrev pub is_unfinished_child : ℕ → Task → Bool
is_unfinished_child id t = is_child id t && not (is_terminal t.status)

module _ (ctx : Ctx) where
  -- `_mirror_to_engine`
  abbrev mirror_to_engine : WorkItem → WorkItemStatus → Option ℕ → String → Action Unit
  mirror_to_engine wi to corr actor =
      send_transition ctx wi.engine_item_id (work_item_status_value to) corr actor

  abbrev set_status : ℕ → WorkItemStatus → Action Unit
  set_status id to = write (update_work_item id (with_status ctx.now to))

  -- W1
  unfoldable pub open_work_item :
      (external_ref : String) (type : WorkItemType) (title : String) (source_path : Option String)
      (opened_by : String) (workflow_id : Option ℕ)
      → Action WorkItem
  unfolding fresh insert_work_item
  open_work_item external_ref type title source_path opened_by workflow_id = do
    id ← fresh ctx
    let wi : WorkItem = record {
      id = id;
      external_ref = external_ref;
      type = type;
      title = title;
      source_path = source_path;
      status = WorkItemStatus.opened;
      engine_item_id = create_engine_item ctx workflow_id title external_ref;
      opened_by = opened_by;
      closed_at = none;
      closed_by = none;
      updated_at = ctx.now;
    }
    insert_work_item wi
    pure wi

  -- W3
  unfoldable pub lock_work_item : ℕ → String → Option ℕ → Action WorkItem
  unfolding load_work_item update_work_item send_transition
  lock_work_item id actor corr = do
    wi ← load_work_item id
    require_status WorkItemStatus.in_progress wi
    when (is_none ctx.engine) (set_status id WorkItemStatus.locked)
    mirror_to_engine wi WorkItemStatus.locked corr actor
    load_work_item id

  -- W4
  unfoldable pub unlock_work_item : ℕ → String → Option ℕ → Action WorkItem
  unfolding load_work_item update_work_item send_transition
  unlock_work_item id actor corr = do
    wi ← load_work_item id
    require_status WorkItemStatus.locked wi
    when (is_none ctx.engine) (set_status id WorkItemStatus.in_progress)
    mirror_to_engine wi WorkItemStatus.in_progress corr actor
    load_work_item id

  -- W6
  unfoldable pub close_work_item : ℕ → String → Option ℕ → Action WorkItem
  unfolding load_work_item update_work_item send_transition
  close_work_item id actor corr = do
    wi ← load_work_item id
    require_status WorkItemStatus.ready wi
    write (update_work_item id (closed_by ctx actor))
    mirror_to_engine wi WorkItemStatus.closed corr actor
    load_work_item id

  -- W2, derived: the status is written with or without an engine.
  unfoldable pub maybe_advance_to_in_progress : ℕ → Option ℕ → Action Bool
  unfolding load_work_item update_work_item send_transition
  maybe_advance_to_in_progress id corr = do
    wi ← load_work_item id
    if not (same_work_item_status wi.status WorkItemStatus.opened) then pure false else do
      set_status id WorkItemStatus.in_progress
      mirror_to_engine wi WorkItemStatus.in_progress corr "system:W2"
      pure true

  -- W5, derived.
  unfoldable pub maybe_advance_to_ready : ℕ → Option ℕ → Action Bool
  unfolding load_work_item update_work_item send_transition
  maybe_advance_to_ready id corr = do
    wi ← load_work_item id
    if not (same_work_item_status wi.status WorkItemStatus.in_progress) then pure false else do
      total ← gets (λ (s : Session). count (is_child id) s.db.tasks)
      if total == 0 then pure false else do
        non_terminal ← gets (λ (s : Session). count (is_unfinished_child id) s.db.tasks)
        if not (non_terminal == 0) then pure false else do
          set_status id WorkItemStatus.ready
          mirror_to_engine wi WorkItemStatus.ready corr "system:W5"
          pure true

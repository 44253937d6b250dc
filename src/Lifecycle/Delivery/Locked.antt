-- ===== src/Lifecycle/Delivery/Locked.antt =====
-- A work item that is locked once more after it was unlocked: its second unlock carries the key of
-- the first, so no signal takes it out of `locked` again.
use carestechs_agent_orchest.Prelude.{
  ℕ, String, ◌≡◌, refl, ap, Bool, true, false, Option, none, some, List, arith, ◌==◌, ==_iff, find,
  update, find-update_other, is_some, Bool-cases, inl, inr, Keeps, keeps_rules,
}
use carestechs_agent_orchest.Enums.Lifecycle.{WorkItemStatus, same_work_item_status}
use carestechs_agent_orchest.Lifecycle.Store.{
  WorkItem, Ctx, Session, Db, is_work_item, find_work_item, find_work_item,
}
use carestechs_agent_orchest.Lifecycle.Idempotency.{has_key, check_and_record}
use carestechs_agent_orchest.Lifecycle.WorkItems.{
  with_status, closed_by, maybe_advance_to_in_progress, maybe_advance_to_ready, lock_work_item,
  unlock_work_item, close_work_item, load_work_item,
}
use carestechs_agent_orchest.Lifecycle.Delivery.Frames.{Both, IgnoresTasks}

-- The work item is there, in this status.
unfoldable pub has_status : ℕ → WorkItemStatus → List WorkItem → Bool
has_status id status ws = elim (find (is_work_item id) ws) [
  | none ↦ false
  | some w ↦ same_work_item_status w.status status
]

-- The work item is locked, and the key of its unlock signal has been used.
pub record IsStuckLocked (id : ℕ) (key : String) (db : Db) : Type 0 where
  pub locked : has_status id WorkItemStatus.locked db.work_items ≡ true
  pub used : is_some (find (has_key key) db.signals) ≡ true

pub IsStuckLocked-ignores : (id : ℕ) (key : String) → IgnoresTasks (IsStuckLocked id key)
IsStuckLocked-ignores id key = record {
  at_tasks = λ db x h. record { locked = h.locked; used = h.used };
  at_assignments = λ db x h. record { locked = h.locked; used = h.used };
  at_approvals = λ db x h. record { locked = h.locked; used = h.used };
  at_plans = λ db x h. record { locked = h.locked; used = h.used };
  at_implementations = λ db x h. record { locked = h.locked; used = h.used };
  at_contexts = λ db x h. record { locked = h.locked; used = h.used };
  at_aux_writes = λ db x h. record { locked = h.locked; used = h.used };
}

-- A write to a work item that is not in this status leaves one that is.
pub has_status-update :
    (id j : ℕ) (status : WorkItemStatus) (f : WorkItem → WorkItem) (ws : List WorkItem)
    → ((v : WorkItem) → (f v).id ≡ v.id)
    → has_status j status ws ≡ false
    → has_status id status ws ≡ true
    → has_status id status (update (is_work_item j) f ws) ≡ true
unfolding has_status
has_status-update id j status f ws keep other h = elim (Bool-cases (j == id)) [
  | inl same ↦ cc (ap (λ k. has_status k status ws) ((==_iff j id).0 same))
  | inr differ ↦ ground (
    arith,
    find-update_other (is_work_item j) (is_work_item id) f ws (λ v p. ground (arith, keep v)),
  )
]

module _ (ctx : Ctx) (id : ℕ) (key : String) where
  abbrev pub Stuck : Session → Type 0
  Stuck = Both (IsStuckLocked id key) (IsStuckLocked id key)

  spared :
      (j : ℕ) (f : WorkItem → WorkItem) (s : Session)
      → ((v : WorkItem) → (f v).id ≡ v.id)
      → has_status j WorkItemStatus.locked s.db.work_items ≡ false
      → has_status id WorkItemStatus.locked s.db.work_items ≡ true
      → has_status id WorkItemStatus.locked (update (is_work_item j) f s.db.work_items) ≡ true
  spared j f s = has_status-update id j WorkItemStatus.locked f s.db.work_items

  pub check_and_record-Keeps :
      (k : String) (j : ℕ) (name : String) → Keeps Stuck (check_and_record ctx k j name)
  unfolding check_and_record find
  check_and_record-Keeps k j name = record { at = λ s h. ground arith }

  pub advance_to_in_progress-Keeps :
      (j : ℕ) (corr : Option ℕ) → Keeps Stuck (maybe_advance_to_in_progress ctx j corr)
  unfolding maybe_advance_to_in_progress find_work_item has_status
  advance_to_in_progress-Keeps j corr = record {
    at = λ s h.
        ground
          (arith, spared j (with_status ctx.now WorkItemStatus.in_progress) s (λ v. ground arith));
  }

  pub advance_to_ready-Keeps :
      (j : ℕ) (corr : Option ℕ) → Keeps Stuck (maybe_advance_to_ready ctx j corr)
  unfolding maybe_advance_to_ready find_work_item has_status
  advance_to_ready-Keeps j corr = record {
    at = λ s h.
        ground (arith, spared j (with_status ctx.now WorkItemStatus.ready) s (λ v. ground arith));
  }

  pub lock_work_item-Keeps :
      (j : ℕ) (actor : String) (corr : Option ℕ) → Keeps Stuck (lock_work_item ctx j actor corr)
  unfolding lock_work_item find_work_item has_status
  lock_work_item-Keeps j actor corr = record {
    at = λ s h.
        ground (arith, spared j (with_status ctx.now WorkItemStatus.locked) s (λ v. ground arith));
  }

  pub close_work_item-Keeps :
      (j : ℕ) (actor : String) (corr : Option ℕ) → Keeps Stuck (close_work_item ctx j actor corr)
  unfolding close_work_item find_work_item has_status
  close_work_item-Keeps j actor corr = record {
    at = λ s h. ground (arith, spared j (closed_by ctx actor) s (λ v. refl));
  }

  -- Unlocking another work item.
  pub unlock_work_item-Keeps :
      (j : ℕ) (actor : String) (corr : Option ℕ)
      → (j == id) ≡ false
      → Keeps Stuck (unlock_work_item ctx j actor corr)
  unfolding unlock_work_item find_work_item has_status
  unlock_work_item-Keeps j actor corr other = record {
    at = λ s h. ground (
      arith,
      find-update_other (is_work_item j) (is_work_item id)
          (with_status ctx.now WorkItemStatus.in_progress) s.db.work_items (λ v p. ground arith),
    );
  }

  pub free : IgnoresTasks (IsStuckLocked id key)
  free = IsStuckLocked-ignores id key

  pub load_work_item-Keeps : (j : ℕ) → Keeps Stuck (load_work_item j)
  unfolding load_work_item
  load_work_item-Keeps j = search keeps_rules

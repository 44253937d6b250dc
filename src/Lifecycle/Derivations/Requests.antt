-- ===== src/Lifecycle/Derivations/Requests.antt =====
-- The admin's requests on a work item, lock, unlock and close, against the engine's workflow.
use mathlib.Core.Option
use carestechs_agent_orchest.Prelude.{
  ℕ, String, ◌≡◌, refl, ap, ◌∙◌, true, Option, none, some, is_none, if◌then◌else◌, ok, err,
  not_found, conflict, arith, find, update, find-update, List,
}
use carestechs_agent_orchest.Enums.Lifecycle.{
  WorkItemStatus, same_work_item_status, work_item_status_value,
}
use carestechs_agent_orchest.Lifecycle.Store.{
  WorkItem, Ctx, Action, Session, find_work_item, is_work_item,
}
use carestechs_agent_orchest.Lifecycle.WorkItems
use carestechs_agent_orchest.Lifecycle.WorkItems.{with_status, closed_by}
use carestechs_agent_orchest.Lifecycle.Declarations.{declares, work_item_transitions}

pub data WorkItemOp : Type 0 where
  lock unlock close : WorkItemOp

-- The call that serves the request.
unfoldable pub administer : Ctx → ℕ → String → Option ℕ → WorkItemOp → Action WorkItem
administer ctx id actor corr lock = WorkItems.lock_work_item ctx id actor corr
administer ctx id actor corr unlock = WorkItems.unlock_work_item ctx id actor corr
administer ctx id actor corr close = WorkItems.close_work_item ctx id actor corr

-- The status that a request starts from, and the one that it leads to.
unfoldable pub source_status : WorkItemOp → WorkItemStatus
source_status lock = WorkItemStatus.in_progress
source_status unlock = WorkItemStatus.locked
source_status close = WorkItemStatus.ready

unfoldable pub target_status : WorkItemOp → WorkItemStatus
target_status lock = WorkItemStatus.locked
target_status unlock = WorkItemStatus.in_progress
target_status close = WorkItemStatus.closed

-- The row after an accepted request.
unfoldable pub administered : Ctx → String → WorkItemOp → WorkItem → WorkItem
administered ctx actor lock w =
    if is_none ctx.engine then with_status ctx.now WorkItemStatus.locked w else w
administered ctx actor unlock w =
    if is_none ctx.engine then with_status ctx.now WorkItemStatus.in_progress w else w
administered ctx actor close w = closed_by ctx actor w

-- The rows after an accepted request.
unfoldable pub readministered : Ctx → ℕ → String → WorkItemOp → List WorkItem → List WorkItem
readministered ctx id actor lock ws =
    if is_none ctx.engine
    then update (is_work_item id) (with_status ctx.now WorkItemStatus.locked) ws
    else ws
readministered ctx id actor unlock ws =
    if is_none ctx.engine
    then update (is_work_item id) (with_status ctx.now WorkItemStatus.in_progress) ws
    else ws
readministered ctx id actor close ws = update (is_work_item id) (closed_by ctx actor) ws

-- Each request is an edge of the workflow that the engine is given.
declared :
    (op : WorkItemOp)
    → declares work_item_transitions
        (work_item_status_value (source_status op))
        (work_item_status_value (target_status op))
      ≡ true
unfolding declares work_item_transitions work_item_status_value source_status target_status
declared lock = refl
declared unlock = refl
declared close = refl

administered-status :
    (ctx : Ctx) (actor : String) (op : WorkItemOp) (w : WorkItem)
    → ctx.engine ≡ none
    → (administered ctx actor op w).status ≡ target_status op
unfolding administered target_status
administered-status ctx actor lock w alone = ground arith
administered-status ctx actor unlock w alone = ground arith
administered-status ctx actor close w alone = ground arith

pub refind :
    (id : ℕ) (f : WorkItem → WorkItem) (ws : List WorkItem)
    → ((w : WorkItem) → (f w).id ≡ w.id)
    → find (is_work_item id) (update (is_work_item id) f ws)
      ≡ Option.map f (find (is_work_item id) ws)
refind id f ws keep = find-update (is_work_item id) f ws (λ w h. ground (arith, keep w))

module _ (ctx : Ctx) (id : ℕ) (actor : String) (corr : Option ℕ) (s : Session) where
  -- A request is accepted exactly in its source status; the answer is the row that results.
  pub administer-answer :
      (op : WorkItemOp)
      → (administer ctx id actor corr op s).0 ≡ elim (find_work_item id s.db) [
        | none ↦ err not_found
        | some w ↦
            if same_work_item_status w.status (source_status op)
            then ok (administered ctx actor op w)
            else err conflict
      ]
  unfolding administer administered source_status find_work_item WorkItems.lock_work_item
      WorkItems.unlock_work_item WorkItems.close_work_item
  administer-answer lock = ground (
    arith,
    refind id (with_status ctx.now WorkItemStatus.locked) s.db.work_items (λ w. ground arith),
  )
  administer-answer unlock = ground (
    arith,
    refind id (with_status ctx.now WorkItemStatus.in_progress) s.db.work_items (λ w. ground arith),
  )
  administer-answer close =
      ground (arith, refind id (closed_by ctx actor) s.db.work_items (λ w. refl))

  -- A request that raises has written nothing. One that is accepted rewrites its own row alone.
  pub administer-effect :
      (op : WorkItemOp)
      → (administer ctx id actor corr op s).1.db ≡ elim (administer ctx id actor corr op s).0 [
        | ok _ ↦ record s.db { work_items = readministered ctx id actor op s.db.work_items }
        | err _ ↦ s.db
      ]
  unfolding administer readministered source_status find_work_item WorkItems.lock_work_item
      WorkItems.unlock_work_item WorkItems.close_work_item
  administer-effect lock = ground (
    arith,
    refind id (with_status ctx.now WorkItemStatus.locked) s.db.work_items (λ w. ground arith),
  )
  administer-effect unlock = ground (
    arith,
    refind id (with_status ctx.now WorkItemStatus.in_progress) s.db.work_items (λ w. ground arith),
  )
  administer-effect close =
      ground (arith, refind id (closed_by ctx actor) s.db.work_items (λ w. refl))

  -- An accepted request found the work item in its source status.
  accepted :
      (op : WorkItemOp) (w w' : WorkItem)
      → find_work_item id s.db ≡ some w
      → (administer ctx id actor corr op s).0 ≡ ok w'
      → (w.status ≡ source_status op) × (w' ≡ administered ctx actor op w)
  accepted op w w' found h = ground (arith, administer-answer op)

  -- With no engine, an accepted lock, unlock or close takes the work item along an edge of the
  -- workflow that the engine would be given.
  pub administer-declares :
      (op : WorkItemOp) (w w' : WorkItem)
      → ctx.engine ≡ none
      → find_work_item id s.db ≡ some w
      → (administer ctx id actor corr op s).0 ≡ ok w'
      → declares work_item_transitions
          (work_item_status_value w.status)
          (work_item_status_value w'.status)
        ≡ true
  administer-declares op w w' alone found h =
      let (from, e) = accepted op w w' found h in
      let to : w'.status ≡ target_status op =
        ap (λ (v : WorkItem). v.status) e ∙ administered-status ctx actor op w alone in
      rw (from, to) (declared op)

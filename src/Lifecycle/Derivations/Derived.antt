-- ===== src/Lifecycle/Derivations/Derived.antt =====
-- The derived transitions W2 and W5: when they fire, what they write, and that a second call does
-- nothing.
use mathlib.Core.Option
use carestechs_agent_orchest.Prelude.{
  ℕ, ◌≡◌, refl, Bool, true, false, not, ◌&&◌, Option, none, some, ◌==◌, if◌then◌else◌, Result, ok,
  err, not_found, arith, find, update, List, [], ◌∷◌, any, all, count,
}
use carestechs_agent_orchest.Enums.Lifecycle.{WorkItemStatus, same_work_item_status}
use carestechs_agent_orchest.Lifecycle.Store.{
  WorkItem, Task, Ctx, Session, Db, find_work_item, is_work_item,
}
use carestechs_agent_orchest.Lifecycle.Tasks.{is_terminal}
use carestechs_agent_orchest.Lifecycle.WorkItems.{
  with_status, maybe_advance_to_in_progress, maybe_advance_to_ready, is_child, is_unfinished_child,
}
use carestechs_agent_orchest.Lifecycle.Derivations.Requests.{refind}

-- Every task of the work item is done or deferred.
unfoldable pub all_finished : ℕ → List Task → Bool
unfolding all
all_finished id ts = all (λ t. if t.work_item_id == id then is_terminal t.status else true) ts

-- The design's condition for `ready`: in progress, with at least one task, and all finished.
unfoldable pub is_ready : ℕ → WorkItem → Db → Bool
is_ready id w db =
    same_work_item_status w.status WorkItemStatus.in_progress
    && any (is_child id) db.tasks
    && all_finished id db.tasks

abbrev pub fires_ready : ℕ → Db → Bool
fires_ready id db = elim (find_work_item id db) [ none ↦ false | some w ↦ is_ready id w db ]

-- Counting no child is having none, and counting no unfinished child is having all finished.
count-any : {A : Type 0} (p : A → Bool) (xs : List A) → (count p xs == 0) ≡ not (any p xs)
unfolding count any
count-any p [] = refl
count-any p (x ∷ xs) = ground (arith, count-any p xs)

count-all :
    (id : ℕ) (ts : List Task) → (count (is_unfinished_child id) ts == 0) ≡ all_finished id ts
unfolding count all_finished
count-all id [] = refl
count-all id (t ∷ ts) = ground (arith, count-all id ts)

module _ (ctx : Ctx) (id : ℕ) (corr : Option ℕ) (s : Session) where
  ready_answer :
      (maybe_advance_to_ready ctx id corr s).0
      ≡ elim (find_work_item id s.db) [ none ↦ err not_found | some w ↦ ok (is_ready id w s.db) ]
  unfolding maybe_advance_to_ready find_work_item is_ready
  ready_answer = ground (arith, count-any (is_child id) s.db.tasks, count-all id s.db.tasks)

  -- W5 answers whether its condition holds: the work item is in progress, has a task, and each of its
  -- tasks is done or deferred. Where it holds, W5 writes `ready` to that work item's row and nothing
  -- else of the database, and otherwise the database is left as it was. An unknown work item is
  -- `not_found`.
  pub advance_to_ready-answer :
      ((maybe_advance_to_ready ctx id corr s).0
        ≡ elim (find_work_item id s.db) [ none ↦ err not_found | some w ↦ ok (is_ready id w s.db) ])
      × ((maybe_advance_to_ready ctx id corr s).1.db ≡ (
          if fires_ready id s.db
          then record s.db {
            work_items =
                update (is_work_item id) (with_status ctx.now WorkItemStatus.ready) s.db.work_items;
          }
          else s.db))
  unfolding maybe_advance_to_ready find_work_item is_ready
  advance_to_ready-answer =
      (ready_answer, ground (arith, count-any (is_child id) s.db.tasks, count-all id s.db.tasks))

  -- W2 fires exactly while the work item is open, and writes its status when it fires.
  pub advance_to_in_progress-answer :
      (maybe_advance_to_in_progress ctx id corr s).0 ≡ elim (find_work_item id s.db) [
        | none ↦ err not_found
        | some w ↦ ok (same_work_item_status w.status WorkItemStatus.opened)
      ]
  unfolding maybe_advance_to_in_progress find_work_item
  advance_to_in_progress-answer = ground arith

  pub advance_to_in_progress-effect :
      (maybe_advance_to_in_progress ctx id corr s).1.db
      ≡ elim (maybe_advance_to_in_progress ctx id corr s).0 [
        | err _ ↦ s.db
        | ok fired ↦
            if fired
            then record s.db {
              work_items =
                  update
                    (is_work_item id)
                    (with_status ctx.now WorkItemStatus.in_progress)
                    s.db.work_items;
            }
            else s.db
      ]
  unfolding maybe_advance_to_in_progress find_work_item
  advance_to_in_progress-effect = ground arith

-- What the second of two calls answers: an error as before, and else that nothing fired.
abbrev pub answer_again : Result Bool → Result Bool
answer_again (err e) = err e
answer_again (ok fired) = ok false

module _ (ctx : Ctx) (id : ℕ) (corr corr' : Option ℕ) (s : Session) where
  refind_ready :
      find
        (is_work_item id)
        (update (is_work_item id) (with_status ctx.now WorkItemStatus.ready) s.db.work_items)
      ≡ Option.map
          (with_status ctx.now WorkItemStatus.ready)
          (find (is_work_item id) s.db.work_items)
  refind_ready =
      refind id (with_status ctx.now WorkItemStatus.ready) s.db.work_items (λ w. ground arith)

  refind_in_progress :
      find
        (is_work_item id)
        (update (is_work_item id) (with_status ctx.now WorkItemStatus.in_progress) s.db.work_items)
      ≡ Option.map
          (with_status ctx.now WorkItemStatus.in_progress)
          (find (is_work_item id) s.db.work_items)
  refind_in_progress =
      refind id (with_status ctx.now WorkItemStatus.in_progress) s.db.work_items (λ w. ground arith)

  -- A second W5 on the same work item, right after the first, does not fire, whatever the first one
  -- did: it answers that nothing fired, or `not_found` again, and leaves the whole session as it was,
  -- the rows, the calls of the engine and what is committed included.
  pub advance_to_ready-again :
      let first = maybe_advance_to_ready ctx id corr s in
      maybe_advance_to_ready ctx id corr' first.1 ≡ (answer_again first.0, first.1)
  unfolding maybe_advance_to_ready find_work_item
  advance_to_ready-again = ground (arith, refind_ready)

  -- A second W2 on the same work item, right after the first, does not fire, whatever the first one
  -- did: it answers that nothing fired, or `not_found` again, and leaves the whole session as it was,
  -- the rows, the calls of the engine and what is committed included.
  pub advance_to_in_progress-again :
      let first = maybe_advance_to_in_progress ctx id corr s in
      maybe_advance_to_in_progress ctx id corr' first.1 ≡ (answer_again first.0, first.1)
  unfolding maybe_advance_to_in_progress find_work_item
  advance_to_in_progress-again = ground (arith, refind_in_progress)

-- ===== src/Lifecycle/Reactor/Settled.antt =====
-- The steps of the reactor: what each leaves alone, and the state in which it has nothing to do.
use carestechs_agent_orchest.Prelude.{
  ℕ, String, ◌≡◌, refl, Bool, true, not, Option, none, some, is_none, find, update, remove, ok,
  arith, List, [], ◌∷◌, ==-refl, all, if◌then◌else◌, Option-cases, inl, inr, find_sound,
}
use carestechs_agent_orchest.Enums.Lifecycle.{
  TaskStatus, WorkItemStatus, parse_task_status, parse_work_item_status, same_task_status,
  same_work_item_status,
}
use carestechs_agent_orchest.Enums.Runtime.{DispatchState, DispatchOutcome, same_dispatch_state}
use carestechs_agent_orchest.Dispatch.Row.{mark_completed}
use carestechs_agent_orchest.Lifecycle.Store.{Db, Session, Ctx, Task, WorkItem}
use carestechs_agent_orchest.Lifecycle.Tasks
use carestechs_agent_orchest.Lifecycle.WorkItems
use carestechs_agent_orchest.Lifecycle.WorkItems.{
  maybe_advance_to_in_progress, maybe_advance_to_ready,
}
use carestechs_agent_orchest.Lifecycle.Reactor.Event.{
  WebhookEvent, Workflow, task_of_item, work_item_of_item, is_item_task, is_item_work_item,
  cache_task_status, cache_work_item_status, cache_status, update_status_cache,
}
use carestechs_agent_orchest.Lifecycle.Reactor.Outbox.{
  is_pending, is_context, build_aux_row, insert_aux_row, materialize_aux, consume_correlation_by_id,
}
use carestechs_agent_orchest.Lifecycle.Reactor.Wake.{
  awaits, is_dispatch, wake_result, wake_dispatch,
}
use carestechs_agent_orchest.Lifecycle.Reactor.Handle.{derive, handle_task_transition}

-- Every row of the item, and by the unique constraint there is one at most, has this status.
unfoldable pub has_task_status : ℕ → TaskStatus → List Task → Bool
unfolding all
has_task_status item status ts =
    all (λ t. if is_item_task item t then same_task_status t.status status else true) ts

unfoldable pub has_work_item_status : ℕ → WorkItemStatus → List WorkItem → Bool
unfolding all
has_work_item_status item status ws =
    all (λ w. if is_item_work_item item w then same_work_item_status w.status status else true) ws

-- The status column of the item's row is what the event reports, where there is a row.
unfoldable pub is_cached : Workflow → ℕ → Option String → Db → Bool
is_cached workflow item none db = true
is_cached Workflow.task_workflow item (some to) db = elim (parse_task_status to) [
  | none ↦ is_none (task_of_item item db)
  | some status ↦ has_task_status item status db.tasks
]
is_cached Workflow.work_item_workflow item (some to) db = elim (parse_work_item_status to) [
  | none ↦ is_none (work_item_of_item item db)
  | some status ↦ has_work_item_status item status db.work_items
]
is_cached Workflow.other_workflow item (some to) db = true

-- No dispatch waits for the correlation id any more.
unfoldable pub is_awake : String → Db → Bool
is_awake corr db = elim (find (awaits corr) db.dispatches) [
  | none ↦ true
  | some d ↦ not (same_dispatch_state d.state DispatchState.dispatched)
]

-- Once the rows that a test picks are removed, none is found.
pub find-remove : {A : Type 0} (p : A → Bool) (xs : List A) → find p (remove p xs) ≡ none
unfolding find remove
find-remove p [] = refl
find-remove p (x ∷ xs) = ground (arith, find-remove p xs)

-- The row that was found is replaced, and found again.
pub find-replace :
    {A : Type 0} (p q : A → Bool) (old new : A) (xs : List A)
    → find p xs ≡ some old
    → q old ≡ true
    → p new ≡ true
    → find p (update q (λ _. new) xs) ≡ some new
unfolding find update
find-replace p q old new [] h hq hp = ground arith
find-replace p q old new (x ∷ xs) h hq hp = ground (arith, find-replace p q old new xs)

module _ {A : Type 0} (p q : A → Bool) where
  all-update :
      (f : A → A) (xs : List A)
      → ((x : A) → q (f x) ≡ true)
      → all (λ x. if p x then q x else true) (update p f xs) ≡ true
  unfolding all update
  all-update f [] h = refl
  all-update f (x ∷ xs) h = ground (arith, all-update f xs h, h x)

  update_same :
      (f : A → A) (xs : List A)
      → ((x : A) → q x ≡ true → f x ≡ x)
      → all (λ x. if p x then q x else true) xs ≡ true
      → update p f xs ≡ xs
  unfolding all update
  update_same f [] h e = refl
  update_same f (x ∷ xs) h e = ground (arith, update_same f xs h, h x)

  all_unless_found :
      (xs : List A) → find p xs ≡ none → all (λ x. if p x then q x else true) xs ≡ true
  unfolding all find
  all_unless_found [] e = refl
  all_unless_found (x ∷ xs) e = ground (arith, all_unless_found xs)

module _ (item now : ℕ) (to : TaskStatus) (ts : List Task) where
  task_status-set :
      has_task_status item to (update (is_item_task item) (Tasks.with_status now to) ts) ≡ true
  unfolding has_task_status
  task_status-set =
      all-update (is_item_task item) (λ t. same_task_status t.status to) (Tasks.with_status now to)
        ts (λ t. ground arith)

  task_status-kept :
      has_task_status item to ts ≡ true
      → update (is_item_task item) (Tasks.with_status now to) ts ≡ ts
  unfolding has_task_status
  task_status-kept h =
      update_same (is_item_task item) (λ t. same_task_status t.status to) (Tasks.with_status now to)
        ts (λ t e. ground arith) h

  task_status-none : find (is_item_task item) ts ≡ none → has_task_status item to ts ≡ true
  unfolding has_task_status
  task_status-none h = all_unless_found (is_item_task item) (λ t. same_task_status t.status to) ts h

module _ (item now : ℕ) (to : WorkItemStatus) (ws : List WorkItem) where
  work_item_status-set :
      has_work_item_status item to
        (update (is_item_work_item item) (WorkItems.with_status now to) ws)
      ≡ true
  unfolding has_work_item_status
  work_item_status-set =
      all-update (is_item_work_item item) (λ w. same_work_item_status w.status to)
        (WorkItems.with_status now to) ws (λ w. ground arith)

  work_item_status-kept :
      has_work_item_status item to ws ≡ true
      → update (is_item_work_item item) (WorkItems.with_status now to) ws ≡ ws
  unfolding has_work_item_status
  work_item_status-kept h =
      update_same (is_item_work_item item) (λ w. same_work_item_status w.status to)
        (WorkItems.with_status now to) ws (λ w e. ground arith) h

  work_item_status-none :
      find (is_item_work_item item) ws ≡ none → has_work_item_status item to ws ≡ true
  unfolding has_work_item_status
  work_item_status-none h =
      all_unless_found (is_item_work_item item) (λ w. same_work_item_status w.status to) ws h

-- The write of the status, once it has been done, is done.
module _ (ctx : Ctx) (item : ℕ) (to : String) (s : Session) where
  task_cache :
      (parsed : Option TaskStatus)
      → parse_task_status to ≡ parsed
      → ((cache_task_status ctx item to s).0 ≡ ok tt
          → elim parsed [
            | none ↦ is_none (task_of_item item (cache_task_status ctx item to s).1.db)
            | some status ↦ has_task_status item status (cache_task_status ctx item to s).1.db.tasks
          ]
            ≡ true)
        × (elim parsed [
          | none ↦ is_none (task_of_item item s.db)
          | some status ↦ has_task_status item status s.db.tasks
        ]
              ≡ true
            → cache_task_status ctx item to s ≡ (ok tt, s))
  unfolding cache_task_status task_of_item
  task_cache none e = (λ h. ground arith, λ h. ground arith)
  task_cache (some status) e = (
    λ h. ground (
      arith,
      task_status-set item ctx.now status s.db.tasks,
      task_status-none item ctx.now status s.db.tasks,
    ),
    λ h. ground (arith, task_status-kept item ctx.now status s.db.tasks h),
  )

  work_item_cache :
      (parsed : Option WorkItemStatus)
      → parse_work_item_status to ≡ parsed
      → ((cache_work_item_status ctx item to s).0 ≡ ok tt
          → elim parsed [
            | none ↦ is_none (work_item_of_item item (cache_work_item_status ctx item to s).1.db)
            | some status ↦
                has_work_item_status item status
                  (cache_work_item_status ctx item to s).1.db.work_items
          ]
            ≡ true)
        × (elim parsed [
          | none ↦ is_none (work_item_of_item item s.db)
          | some status ↦ has_work_item_status item status s.db.work_items
        ]
              ≡ true
            → cache_work_item_status ctx item to s ≡ (ok tt, s))
  unfolding cache_work_item_status work_item_of_item
  work_item_cache none e = (λ h. ground arith, λ h. ground arith)
  work_item_cache (some status) e = (
    λ h. ground (
      arith,
      work_item_status-set item ctx.now status s.db.work_items,
      work_item_status-none item ctx.now status s.db.work_items,
    ),
    λ h. ground (arith, work_item_status-kept item ctx.now status s.db.work_items h),
  )

cache_facts :
    (ctx : Ctx) (s : Session) (workflow : Workflow) (item : ℕ) (to : Option String)
    → ((cache_status ctx workflow item to s).0 ≡ ok tt
        → is_cached workflow item to (cache_status ctx workflow item to s).1.db ≡ true)
      × (is_cached workflow item to s.db ≡ true → cache_status ctx workflow item to s ≡ (ok tt, s))
unfolding is_cached
cache_facts ctx s workflow item none = (λ h. refl, λ h. refl)
cache_facts ctx s Workflow.task_workflow item (some to) =
    task_cache ctx item to s (parse_task_status to) refl
cache_facts ctx s Workflow.work_item_workflow item (some to) =
    work_item_cache ctx item to s (parse_work_item_status to) refl
cache_facts ctx s Workflow.other_workflow item (some to) = (λ h. refl, λ h. refl)

module _ (ctx : Ctx) (corr : ℕ) (workflow : Workflow) (event : WebhookEvent) (s : Session) where
  pub materialize-frame :
      let db = (materialize_aux corr s).1.db in
      (db.tasks ≡ s.db.tasks)
      × (db.work_items ≡ s.db.work_items)
      × (db.contexts ≡ s.db.contexts)
      × (db.dispatches ≡ s.db.dispatches)
  unfolding materialize_aux build_aux_row insert_aux_row
  materialize-frame = (ground arith, ground arith, ground arith, ground arith)

  pub materialize-clears :
      (materialize_aux corr s).0 ≡ ok tt
      → find (is_pending corr) (materialize_aux corr s).1.db.aux_writes ≡ none
  unfolding materialize_aux build_aux_row insert_aux_row
  materialize-clears h = ground (arith, find-remove (is_pending corr) s.db.aux_writes)

  pub materialize-idle :
      find (is_pending corr) s.db.aux_writes ≡ none → materialize_aux corr s ≡ (ok tt, s)
  unfolding materialize_aux
  materialize-idle h = ground arith

  pub cache-frame :
      let db = (update_status_cache ctx workflow event s).1.db in
      (db.aux_writes ≡ s.db.aux_writes)
      × (db.contexts ≡ s.db.contexts)
      × (db.dispatches ≡ s.db.dispatches)
  unfolding update_status_cache cache_task_status cache_work_item_status
  cache-frame = (ground arith, ground arith, ground arith)

  pub consume-frame :
      let db = (consume_correlation_by_id corr s).1.db in
      (db.tasks ≡ s.db.tasks)
      × (db.work_items ≡ s.db.work_items)
      × (db.aux_writes ≡ s.db.aux_writes)
      × (db.dispatches ≡ s.db.dispatches)
  unfolding consume_correlation_by_id
  consume-frame = (ground arith, ground arith, ground arith, ground arith)

  pub consume-clears :
      find (is_context corr) (consume_correlation_by_id corr s).1.db.contexts ≡ none
  unfolding consume_correlation_by_id
  consume-clears = ground (arith, find-remove (is_context corr) s.db.contexts)

  pub consume-idle :
      find (is_context corr) s.db.contexts ≡ none → consume_correlation_by_id corr s ≡ (ok tt, s)
  unfolding consume_correlation_by_id
  consume-idle h = ground arith

  pub wake-frame :
      let db = (wake_dispatch ctx corr event s).1.db in
      (db.tasks ≡ s.db.tasks)
      × (db.work_items ≡ s.db.work_items)
      × (db.aux_writes ≡ s.db.aux_writes)
      × (db.contexts ≡ s.db.contexts)
  unfolding wake_dispatch mark_completed
  wake-frame = (ground arith, ground arith, ground arith, ground arith)

  pub wake-idle :
      is_awake (ctx.id_text corr) s.db ≡ true → wake_dispatch ctx corr event s ≡ (ok tt, s)
  unfolding wake_dispatch is_awake
  wake-idle h = ground arith

  pub derive-frame :
      let db = (derive ctx workflow event s).1.db in
      (db.tasks ≡ s.db.tasks)
      × (db.aux_writes ≡ s.db.aux_writes)
      × (db.contexts ≡ s.db.contexts)
      × (db.dispatches ≡ s.db.dispatches)
  unfolding derive handle_task_transition maybe_advance_to_in_progress maybe_advance_to_ready
  derive-frame = (ground arith, ground arith, ground arith, ground arith)

  pub cache-idle :
      is_cached workflow event.item_id event.to_status s.db ≡ true
      → update_status_cache ctx workflow event s ≡ (ok tt, s)
  unfolding update_status_cache
  cache-idle h = (cache_facts ctx s workflow event.item_id event.to_status).1 h

  pub cache-caches :
      (update_status_cache ctx workflow event s).0 ≡ ok tt
      → is_cached workflow event.item_id event.to_status
          (update_status_cache ctx workflow event s).1.db
        ≡ true
  unfolding update_status_cache
  cache-caches h = (cache_facts ctx s workflow event.item_id event.to_status).0 h

  pub wake-wakes :
      (wake_dispatch ctx corr event s).0 ≡ ok tt
      → is_awake (ctx.id_text corr) (wake_dispatch ctx corr event s).1.db ≡ true
  unfolding wake_dispatch is_awake mark_completed awaits
  wake-wakes h = elim (Option-cases (find (awaits (ctx.id_text corr)) s.db.dispatches)) [
    | inl e ↦ ground arith
    | inr (d, e) ↦ ground (
      arith,
      find-replace (awaits (ctx.id_text corr)) (is_dispatch d.dispatch_id) d
          (record d {
            state = DispatchState.completed;
            outcome = some DispatchOutcome.succeeded;
            result = some (wake_result (ctx.id_text corr) event d);
            detail = none;
            finished_at = some ctx.now;
          })
          s.db.dispatches e (==-refl d.dispatch_id)
          (find_sound (awaits (ctx.id_text corr)) s.db.dispatches d e),
    )
  ]

-- ===== src/Lifecycle/Reactor/Inferred.antt =====
-- The workflow of an item, read from the tables, is the same after a webhook as before.
use carestechs_agent_orchest.Prelude.{
  ℕ, String, ◌≡◌, refl, ap, ◌∙◌, Bool, Option, none, some, is_none, find, update, List, [], ◌∷◌,
  arith, Keeps, keeps_rules,
}
use carestechs_agent_orchest.Enums.Lifecycle.{
  TaskStatus, WorkItemStatus, parse_task_status, parse_work_item_status,
}
use carestechs_agent_orchest.Lifecycle.Store.{Session, Ctx, is_work_item, find_work_item}
use carestechs_agent_orchest.Lifecycle.Tasks
use carestechs_agent_orchest.Lifecycle.WorkItems
use carestechs_agent_orchest.Lifecycle.WorkItems.{
  maybe_advance_to_in_progress, maybe_advance_to_ready,
}
use carestechs_agent_orchest.Lifecycle.Reactor.Event.{
  WebhookEvent, webhook_correlation_id, Workflow, is_item_task, is_item_work_item, task_of_item,
  work_item_of_item, infer_workflow_from_item, cache_task_status, cache_work_item_status,
  cache_status, update_status_cache,
}
use carestechs_agent_orchest.Lifecycle.Reactor.Outbox.{materialize_aux, consume_correlation_by_id}
use carestechs_agent_orchest.Lifecycle.Reactor.Wake.{wake_dispatch}
use carestechs_agent_orchest.Lifecycle.Reactor.Handle.{
  derive, handle_task_transition, react_with, react, without_engine,
}
use carestechs_agent_orchest.Lifecycle.Reactor.Settled.{
  materialize-frame, consume-frame, wake-frame,
}

-- An update that does not touch what the test reads.
find-update_same :
    {A : Type 0} (p q : A → Bool) (f : A → A) (xs : List A)
    → ((x : A) → p (f x) ≡ p x)
    → is_none (find p (update q f xs)) ≡ is_none (find p xs)
unfolding find update
find-update_same p q f [] h = refl
find-update_same p q f (x ∷ xs) h = ground (arith, find-update_same p q f xs h, h x)

-- Whether the item has a task, and whether it has a work item.
record Has (item : ℕ) (no_task no_work_item : Bool) (s : Session) : Type 0 where
  task : is_none (task_of_item item s.db) ≡ no_task
  work_item : is_none (work_item_of_item item s.db) ≡ no_work_item

module _ (ctx : Ctx) (item : ℕ) (a b : Bool) where
  cache_task-Has : (i : ℕ) (to : String) → Keeps (Has item a b) (cache_task_status ctx i to)
  unfolding cache_task_status task_of_item work_item_of_item
  cache_task-Has i to = record { at = λ s h. go s (parse_task_status to) refl h }
    where
      go :
          (s : Session) (parsed : Option TaskStatus)
          → parse_task_status to ≡ parsed
          → Has item a b s
          → Has item a b (cache_task_status ctx i to s).1
      go s none e h = record {
        task = ground (arith, h.task);
        work_item = ground (arith, h.work_item);
      }
      go s (some status) e h = record {
        task = ground (
          arith,
          h.task,
          find-update_same (is_item_task item) (is_item_task i) (Tasks.with_status ctx.now status)
              s.db.tasks (λ t. ground arith),
        );
        work_item = ground (arith, h.work_item);
      }

  cache_work_item-Has :
      (i : ℕ) (to : String) → Keeps (Has item a b) (cache_work_item_status ctx i to)
  unfolding cache_work_item_status task_of_item work_item_of_item
  cache_work_item-Has i to = record { at = λ s h. go s (parse_work_item_status to) refl h }
    where
      go :
          (s : Session) (parsed : Option WorkItemStatus)
          → parse_work_item_status to ≡ parsed
          → Has item a b s
          → Has item a b (cache_work_item_status ctx i to s).1
      go s none e h = record {
        task = ground (arith, h.task);
        work_item = ground (arith, h.work_item);
      }
      go s (some status) e h = record {
        task = ground (arith, h.task);
        work_item = ground (
          arith,
          h.work_item,
          find-update_same (is_item_work_item item) (is_item_work_item i)
              (WorkItems.with_status ctx.now status) s.db.work_items (λ w. ground arith),
        );
      }

  cache-Has :
      (workflow : Workflow) (i : ℕ) (to : Option String)
      → Keeps (Has item a b) (cache_status ctx workflow i to)
  cache-Has workflow i none = record { at = λ s h. h }
  cache-Has Workflow.task_workflow i (some to) = cache_task-Has i to
  cache-Has Workflow.work_item_workflow i (some to) = cache_work_item-Has i to
  cache-Has Workflow.other_workflow i (some to) = record { at = λ s h. h }

  in_progress-Has :
      (id : ℕ) (corr : Option ℕ) → Keeps (Has item a b) (maybe_advance_to_in_progress ctx id corr)
  unfolding maybe_advance_to_in_progress task_of_item work_item_of_item find_work_item
  in_progress-Has id corr = record {
    at = λ s h. record {
      task = ground (arith, h.task);
      work_item = ground (
        arith,
        h.work_item,
        find-update_same (is_item_work_item item) (is_work_item id)
            (WorkItems.with_status ctx.now WorkItemStatus.in_progress) s.db.work_items
            (λ w. ground arith),
      );
    };
  }

  ready-Has : (id : ℕ) (corr : Option ℕ) → Keeps (Has item a b) (maybe_advance_to_ready ctx id corr)
  unfolding maybe_advance_to_ready task_of_item work_item_of_item find_work_item
  ready-Has id corr = record {
    at = λ s h. record {
      task = ground (arith, h.task);
      work_item = ground (
        arith,
        h.work_item,
        find-update_same (is_item_work_item item) (is_work_item id)
            (WorkItems.with_status ctx.now WorkItemStatus.ready) s.db.work_items
            (λ w. ground arith),
      );
    };
  }

  -- A step that leaves both tables alone.
  framed :
      (s s' : Session)
      → s'.db.tasks ≡ s.db.tasks
      → s'.db.work_items ≡ s.db.work_items
      → Has item a b s
      → Has item a b s'
  unfolding task_of_item work_item_of_item
  framed s s' e f h = record {
    task = ap (λ ts. is_none (find (is_item_task item) ts)) e ∙ h.task;
    work_item = ap (λ ws. is_none (find (is_item_work_item item) ws)) f ∙ h.work_item;
  }

  module _ (workflow : Workflow) (event : WebhookEvent) where
    materialize-Has : (c : ℕ) → Keeps (Has item a b) (materialize_aux c)
    materialize-Has c = record {
      at = λ s h.
          let f = materialize-frame ctx c workflow event s in
          framed s (materialize_aux c s).1 f.0 f.1 h;
    }

    consume-Has : (c : ℕ) → Keeps (Has item a b) (consume_correlation_by_id c)
    consume-Has c = record {
      at = λ s h.
          let f = consume-frame ctx c workflow event s in
          framed s (consume_correlation_by_id c s).1 f.0 f.1 h;
    }

    wake-Has : (c : ℕ) → Keeps (Has item a b) (wake_dispatch ctx c event)
    wake-Has c = record {
      at = λ s h.
          let f = wake-frame ctx c workflow event s in
          framed s (wake_dispatch ctx c event s).1 f.0 f.1 h;
    }

-- The derivations run without an engine.
handle_task-Has :
    (ctx : Ctx) (item : ℕ) (a b : Bool) (i : ℕ) (to : Option String)
    → Keeps (Has item a b) (handle_task_transition ctx i to)
unfolding handle_task_transition
handle_task-Has ctx item a b i to =
    search
      (
        keeps_rules,
        in_progress-Has (without_engine ctx) item a b,
        ready-Has (without_engine ctx) item a b,
      )
      depth 12

derive-Has :
    (ctx : Ctx) (item : ℕ) (a b : Bool) (workflow : Workflow) (event : WebhookEvent)
    → Keeps (Has item a b) (derive ctx workflow event)
unfolding derive
derive-Has ctx item a b Workflow.task_workflow event =
    handle_task-Has ctx item a b event.item_id event.to_status
derive-Has ctx item a b Workflow.work_item_workflow event = record { at = λ s h. h }
derive-Has ctx item a b Workflow.other_workflow event = record { at = λ s h. h }

react_with-Has :
    (ctx : Ctx) (item : ℕ) (a b supervised : Bool) (workflow : Workflow) (event : WebhookEvent)
    (corr : Option ℕ)
    → Keeps (Has item a b) (react_with ctx supervised workflow event corr)
unfolding react_with update_status_cache
react_with-Has ctx item a b supervised workflow event corr =
    search
      (
        keeps_rules,
        cache-Has ctx item a b,
        derive-Has ctx item a b,
        materialize-Has ctx item a b workflow event,
        consume-Has ctx item a b workflow event,
        wake-Has ctx item a b workflow event,
      )
      depth 20

-- The workflow that is read from the tables is the same after the webhook.
pub react-infer :
    (ctx : Ctx) (item : ℕ) (supervised : Bool) (workflow : Workflow) (event : WebhookEvent)
    (s : Session)
    → infer_workflow_from_item item (react ctx supervised workflow event s).1.db
      ≡ infer_workflow_from_item item s.db
unfolding infer_workflow_from_item react
react-infer ctx item supervised workflow event s =
    let k =
      (react_with-Has ctx item (is_none (task_of_item item s.db))
          (is_none (work_item_of_item item s.db)) supervised workflow event
          (webhook_correlation_id event)).at
        s (record { task = refl; work_item = refl }) in
    ground (arith, k.task, k.work_item)

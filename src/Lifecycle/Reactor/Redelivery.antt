-- ===== src/Lifecycle/Reactor/Redelivery.antt =====
-- A webhook that is delivered twice.
use carestechs_agent_orchest.Prelude.{
  ℕ, String, ◌≡◌, refl, ap, ◌∙◌, Bool, true, false, Option, none, some, find, ok, arith, Keeps,
  Again, Again-then, Option-cases, inl, inr, ◌>>◌, ◌⊎◌, Keeps-bind, if_some,
}
use carestechs_agent_orchest.Enums.Lifecycle.{WorkItemStatus}
use carestechs_agent_orchest.Lifecycle.Store.{Db, Session, Ctx, Action, find_work_item}
use carestechs_agent_orchest.Lifecycle.WorkItems.{
  with_status, maybe_advance_to_in_progress, maybe_advance_to_ready,
}
use carestechs_agent_orchest.Lifecycle.Derivations.Requests.{refind}
use carestechs_agent_orchest.Lifecycle.Reactor.Event.{
  WebhookEvent, Workflow, webhook_correlation_id, infer_workflow_from_item, task_of_item,
  work_item_of_item, update_status_cache,
}
use carestechs_agent_orchest.Lifecycle.Reactor.Outbox.{
  is_pending, is_context, materialize_aux, consume_correlation_by_id,
}
use carestechs_agent_orchest.Lifecycle.Reactor.Wake.{wake_dispatch}
use carestechs_agent_orchest.Lifecycle.Reactor.Handle.{
  derive, handle_task_transition, resolve, react_with, react, handle_transition,
}
use carestechs_agent_orchest.Lifecycle.Reactor.Inferred.{react-infer}
use carestechs_agent_orchest.Lifecycle.Reactor.Settled.{
  is_cached, is_awake, materialize-clears, materialize-idle, cache-frame, cache-caches, cache-idle,
  consume-frame, consume-clears, consume-idle, wake-frame, wake-wakes, wake-idle, derive-frame,
}

-- What each step leaves behind.
record NoPending (corr : ℕ) (s : Session) : Type 0 where
  fact : find (is_pending corr) s.db.aux_writes ≡ none

record NoContext (corr : ℕ) (s : Session) : Type 0 where
  fact : find (is_context corr) s.db.contexts ≡ none

pub record Cached (workflow : Workflow) (event : WebhookEvent) (s : Session) : Type 0 where
  pub fact : is_cached workflow event.item_id event.to_status s.db ≡ true

record Awake (corr : String) (s : Session) : Type 0 where
  fact : is_awake corr s.db ≡ true

-- The cache is read from the tasks, or from the work items where the item is one.
derived-cached :
    (workflow : Workflow) (item : ℕ) (to : Option String) (db db' : Db)
    → db'.tasks ≡ db.tasks
    → (workflow ≡ Workflow.task_workflow) ⊎ (db'.work_items ≡ db.work_items)
    → is_cached workflow item to db' ≡ is_cached workflow item to db
unfolding is_cached task_of_item work_item_of_item
derived-cached workflow item none db db' e f = refl
derived-cached Workflow.task_workflow item (some to) db db' e f = rw e refl
derived-cached Workflow.work_item_workflow item (some to) db db' e (inl f) = ground arith
derived-cached Workflow.work_item_workflow item (some to) db db' e (inr f) = rw f refl
derived-cached Workflow.other_workflow item (some to) db db' e f = refl

derive-work_items :
    (ctx : Ctx) (workflow : Workflow) (event : WebhookEvent) (s : Session)
    → (workflow ≡ Workflow.task_workflow)
      ⊎ ((derive ctx workflow event s).1.db.work_items ≡ s.db.work_items)
unfolding derive
derive-work_items ctx Workflow.task_workflow event s = inl refl
derive-work_items ctx Workflow.work_item_workflow event s = inr refl
derive-work_items ctx Workflow.other_workflow event s = inr refl

module _ (ctx : Ctx) (later : ℕ) (workflow : Workflow) (event : WebhookEvent) where
  handle_task-Again :
      (item : ℕ) (to : Option String)
      → Again
          (handle_task_transition ctx item to)
          (handle_task_transition (record ctx { now = later }) item to)
  unfolding handle_task_transition maybe_advance_to_in_progress maybe_advance_to_ready task_of_item
      find_work_item
  handle_task-Again item to = record {
    at = λ s h. elim (Option-cases (task_of_item item s.db)) [
      | inl e ↦ ground arith
      | inr (t, e) ↦ ground (
        arith,
        refind t.work_item_id (with_status ctx.now WorkItemStatus.ready) s.db.work_items
            (λ w. ground arith),
        refind t.work_item_id (with_status ctx.now WorkItemStatus.in_progress) s.db.work_items
            (λ w. ground arith),
      )
    ];
  }

  derive-Again :
      Again (derive ctx workflow event) (derive (record ctx { now = later }) workflow event)
  unfolding derive
  derive-Again = go workflow
    where
      go : (w : Workflow) → Again (derive ctx w event) (derive (record ctx { now = later }) w event)
      go Workflow.task_workflow = handle_task-Again event.item_id event.to_status
      go Workflow.work_item_workflow = record { at = λ s h. refl }
      go Workflow.other_workflow = record { at = λ s h. refl }

  pub derive-Cached : Keeps (Cached workflow event) (derive ctx workflow event)
  derive-Cached = record {
    at = λ s h. record {
      fact =
          derived-cached workflow event.item_id event.to_status s.db
            (derive ctx workflow event s).1.db (derive-frame ctx 0 workflow event s).0
            (derive-work_items ctx workflow event s)
          ∙ h.fact;
    };
  }

  module _ (corr : ℕ) where
    cache-NoPending : Keeps (NoPending corr) (update_status_cache ctx workflow event)
    cache-NoPending = record {
      at = λ s h. record {
        fact = ap (find (is_pending corr)) (cache-frame ctx corr workflow event s).0 ∙ h.fact;
      };
    }

    consume-NoPending : Keeps (NoPending corr) (consume_correlation_by_id corr)
    consume-NoPending = record {
      at = λ s h. record {
        fact = ap (find (is_pending corr)) (consume-frame ctx corr workflow event s).2 ∙ h.fact;
      };
    }

    wake-NoPending : Keeps (NoPending corr) (wake_dispatch ctx corr event)
    wake-NoPending = record {
      at = λ s h. record {
        fact = ap (find (is_pending corr)) (wake-frame ctx corr workflow event s).2 ∙ h.fact;
      };
    }

    derive-NoPending : Keeps (NoPending corr) (derive ctx workflow event)
    derive-NoPending = record {
      at = λ s h. record {
        fact = ap (find (is_pending corr)) (derive-frame ctx corr workflow event s).1 ∙ h.fact;
      };
    }

    wake-NoContext : Keeps (NoContext corr) (wake_dispatch ctx corr event)
    wake-NoContext = record {
      at = λ s h. record {
        fact = ap (find (is_context corr)) (wake-frame ctx corr workflow event s).3 ∙ h.fact;
      };
    }

    derive-NoContext : Keeps (NoContext corr) (derive ctx workflow event)
    derive-NoContext = record {
      at = λ s h. record {
        fact = ap (find (is_context corr)) (derive-frame ctx corr workflow event s).2 ∙ h.fact;
      };
    }

    derive-Awake : Keeps (Awake (ctx.id_text corr)) (derive ctx workflow event)
    unfolding is_awake
    derive-Awake = record {
      at =
          λ s h. record { fact = rw (is_awake, (derive-frame ctx corr workflow event s).3) h.fact };
    }

    pub consume-Cached : Keeps (Cached workflow event) (consume_correlation_by_id corr)
    consume-Cached = record {
      at = λ s h. record {
        fact =
            derived-cached workflow event.item_id event.to_status s.db
              (consume_correlation_by_id corr s).1.db (consume-frame ctx corr workflow event s).0
              (inr (consume-frame ctx corr workflow event s).1)
            ∙ h.fact;
      };
    }

    pub wake-Cached : Keeps (Cached workflow event) (wake_dispatch ctx corr event)
    wake-Cached = record {
      at = λ s h. record {
        fact =
            derived-cached workflow event.item_id event.to_status s.db
              (wake_dispatch ctx corr event s).1.db (wake-frame ctx corr workflow event s).0
              (inr (wake-frame ctx corr workflow event s).1)
            ∙ h.fact;
      };
    }

  -- The steps before the wake-up, in front of whatever keeps what they leave behind.
  after_tail :
      (c : ℕ) (tail tail' : Action Unit)
      → Keeps (NoPending c) tail
      → Keeps (Cached workflow event) tail
      → Keeps (NoContext c) tail
      → Again tail tail'
      → Again
          (materialize_aux c
            >> (update_status_cache ctx workflow event >> (consume_correlation_by_id c >> tail)))
          (materialize_aux c
            >> (update_status_cache (record ctx { now = later }) workflow event
                >> (consume_correlation_by_id c >> tail')))
  after_tail c tail tail' pending cached context again =
      Again-then (NoPending c) _ _ _ _
        (λ s h. record { fact = materialize-clears ctx c workflow event s h })
        (Keeps-bind _ _ (cache-NoPending c)
          (λ _. Keeps-bind _ _ (consume-NoPending c) (λ _. pending)))
        (λ s h. materialize-idle ctx c workflow event s h.fact)
        (Again-then (Cached workflow event) _ _ _ _
          (λ s h. record { fact = cache-caches ctx c workflow event s h })
          (Keeps-bind _ _ (consume-Cached c) (λ _. cached))
          (λ s h. cache-idle (record ctx { now = later }) c workflow event s h.fact)
          (Again-then (NoContext c) _ _ _ _
            (λ s h. record { fact = consume-clears ctx c workflow event s }) context
            (λ s h. consume-idle ctx c workflow event s h.fact) again))

  wake_derive-Again :
      (c : ℕ)
      → Again (wake_dispatch ctx c event >> derive ctx workflow event) (
          wake_dispatch (record ctx { now = later }) c event
          >> derive (record ctx { now = later }) workflow event)
  wake_derive-Again c =
      Again-then (Awake (ctx.id_text c)) _ _ _ _
        (λ s h. record { fact = wake-wakes ctx c workflow event s h }) (derive-Awake c)
        (λ s h. wake-idle (record ctx { now = later }) c workflow event s h.fact) derive-Again

  react_with-Again :
      (supervised : Bool) (corr : Option ℕ)
      → Again
          (react_with ctx supervised workflow event corr)
          (react_with (record ctx { now = later }) supervised workflow event corr)
  unfolding react_with
  react_with-Again supervised none =
      Again-then (Cached workflow event) (update_status_cache ctx workflow event)
        (derive ctx workflow event)
        (update_status_cache (record ctx { now = later }) workflow event)
        (derive (record ctx { now = later }) workflow event)
        (λ s h. record { fact = cache-caches ctx 0 workflow event s h }) derive-Cached
        (λ s h. cache-idle (record ctx { now = later }) 0 workflow event s h.fact) derive-Again
  react_with-Again false (some c) =
      after_tail c (derive ctx workflow event) (derive (record ctx { now = later }) workflow event)
        (derive-NoPending c) derive-Cached (derive-NoContext c) derive-Again
  react_with-Again true (some c) =
      after_tail c (wake_dispatch ctx c event >> derive ctx workflow event)
        (wake_dispatch (record ctx { now = later }) c event
          >> derive (record ctx { now = later }) workflow event)
        (Keeps-bind _ _ (wake-NoPending c) (λ _. derive-NoPending c))
        (Keeps-bind _ _ (wake-Cached c) (λ _. derive-Cached))
        (Keeps-bind _ _ (wake-NoContext c) (λ _. derive-NoContext c)) (wake_derive-Again c)

react-again :
    (ctx : Ctx) (later : ℕ) (supervised : Bool) (workflow : Workflow) (event : WebhookEvent)
    (s : Session)
    → (react ctx supervised workflow event s).0 ≡ ok tt
    → react
        (record ctx { now = later })
        supervised
        workflow
        event
        (react ctx supervised workflow event s).1
      ≡ (ok tt, (react ctx supervised workflow event s).1)
unfolding react
react-again ctx later supervised workflow event s h =
    (react_with-Again ctx later workflow event supervised (webhook_correlation_id event)).at s h

-- A webhook that was handled without an error, and that the same deployment handles again in the
-- session that the first handling left, before anything else has changed it, does nothing, whatever the
-- clock says by then: no row is written, no auxiliary row is made a second time, no dispatch is woken
-- again, and no derived transition fires. Nothing is said of a redelivery after another webhook.
pub handle_transition-again :
    (ctx : Ctx) (later : ℕ) (names : ℕ → Option Workflow) (supervised : Bool) (event : WebhookEvent)
    (s : Session)
    → (handle_transition ctx names supervised event s).0 ≡ ok tt
    → handle_transition
        (record ctx { now = later })
        names
        supervised
        event
        (handle_transition ctx names supervised event s).1
      ≡ (ok tt, (handle_transition ctx names supervised event s).1)
unfolding handle_transition
handle_transition-again ctx later names supervised event s h =
    go (resolve (names event.workflow_id) (infer_workflow_from_item event.item_id s.db)) refl h
  where
    reaction : Ctx → Option Workflow → Action Unit
    reaction c w = if_some w (λ workflow. react c supervised workflow event)

    go :
        (w : Option Workflow)
        → resolve (names event.workflow_id) (infer_workflow_from_item event.item_id s.db) ≡ w
        → (reaction ctx w s).0 ≡ ok tt
        → reaction
            (record ctx { now = later })
            (resolve
              (names event.workflow_id)
              (infer_workflow_from_item event.item_id (reaction ctx w s).1.db))
            (reaction ctx w s).1
          ≡ (ok tt, (reaction ctx w s).1)
    go none e h = rw e refl
    go (some workflow) e h =
        rw (react-infer ctx event.item_id supervised workflow event s, e)
          (react-again ctx later supervised workflow event s h)

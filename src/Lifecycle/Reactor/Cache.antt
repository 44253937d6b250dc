-- ===== src/Lifecycle/Reactor/Cache.antt =====
-- What a webhook leaves behind: the status that it reports, and the auxiliary row of its signal.
use carestechs_agent_orchest.Prelude.{
  ℕ, String, ◌≡◌, refl, sym, ap, ◌∙◌, subst, Bool, true, false, Option, none, some, is_none,
  is_some, find, remove, any, List, [], ◌∷◌, ok, arith, Keeps, Keeps-bind, ok_both, when, ◌>>◌,
  ==-refl,
}
use carestechs_agent_orchest.Lifecycle.Store.{
  Session, Ctx, Action, EngineClient, AuxPayload, find_task, insert_aux_write, PendingAuxWrite,
}
use carestechs_agent_orchest.Lifecycle.Signals.{enqueue_aux}
use carestechs_agent_orchest.Lifecycle.Reactor.Event.{
  WebhookEvent, webhook_correlation_id, Workflow, update_status_cache,
}
use carestechs_agent_orchest.Lifecycle.Reactor.Outbox.{
  AuxRow, build_aux_row, insert_aux_row, is_pending, materialize_aux, consume_correlation_by_id,
}
use carestechs_agent_orchest.Lifecycle.Reactor.Wake.{wake_dispatch}
use carestechs_agent_orchest.Lifecycle.Reactor.Handle.{derive, react_with, react}
use carestechs_agent_orchest.Lifecycle.Reactor.Settled.{is_cached, cache-caches}
use carestechs_agent_orchest.Lifecycle.Reactor.Redelivery.{
  Cached, derive-Cached, consume-Cached, wake-Cached,
}

-- After a sequence that returned, what its first part sets and its second part keeps.
set_then :
    {I : Session → Type 0} (m k : Action Unit) (s : Session)
    → ((m s).0 ≡ ok tt → I (m s).1)
    → Keeps I k
    → ((m >> k) s).0 ≡ ok tt
    → I ((m >> k) s).1
set_then {I} m k s sets kept h =
    let (done, e) = ok_both m k s h in subst (λ r. I r.1) (sym e) (kept.at (m s).1 (sets done))

module _ (ctx : Ctx) (supervised : Bool) (workflow : Workflow) (event : WebhookEvent) where
  wake_derive-Cached :
      (b : Bool) (c : ℕ)
      → Keeps
          (Cached workflow event)
          (when b (wake_dispatch ctx c event) >> derive ctx workflow event)
  wake_derive-Cached true c =
      Keeps-bind _ _ (wake-Cached ctx 0 workflow event c) (λ _. derive-Cached ctx 0 workflow event)
  wake_derive-Cached false c = record { at = (derive-Cached ctx 0 workflow event).at }

  cache_first :
      (k : Action Unit) (s : Session)
      → Keeps (Cached workflow event) k
      → ((update_status_cache ctx workflow event >> k) s).0 ≡ ok tt
      → Cached workflow event ((update_status_cache ctx workflow event >> k) s).1
  cache_first k s kept h =
      set_then (update_status_cache ctx workflow event) k s
        (λ done. record { fact = cache-caches ctx 0 workflow event s done }) kept h

  react_with-Cached :
      (corr : Option ℕ) (s : Session)
      → (react_with ctx supervised workflow event corr s).0 ≡ ok tt
      → Cached workflow event (react_with ctx supervised workflow event corr s).1
  unfolding react_with
  react_with-Cached none s h = cache_first _ s (derive-Cached ctx 0 workflow event) h
  react_with-Cached (some c) s h =
      let k =
        consume_correlation_by_id c
        >> (when supervised (wake_dispatch ctx c event) >> derive ctx workflow event) in
      let kept =
        Keeps-bind _ _ (consume-Cached ctx 0 workflow event c)
          (λ _. wake_derive-Cached supervised c) in
      let (_, e) = ok_both (materialize_aux c) (update_status_cache ctx workflow event >> k) s h in
      subst (λ r. Cached workflow event r.1) (sym e)
        (cache_first k (materialize_aux c s).1 kept (ap (λ r. r.0) (sym e) ∙ h))

  -- After a webhook that was handled without an error every row of its item has the status that the
  -- engine reported, whatever the derivations did after it. A text that is no status can only have
  -- been handled without an error where the item has no row.
  pub react-is_cached :
      (s : Session)
      → (react ctx supervised workflow event s).0 ≡ ok tt
      → is_cached workflow event.item_id event.to_status
          (react ctx supervised workflow event s).1.db
        ≡ true
  unfolding react
  react-is_cached s h = (react_with-Cached (webhook_correlation_id event) s h).fact

-- The payload that the adapters put into the outbox for a row, and the row's task.
unfoldable pub aux_payload : AuxRow → AuxPayload
aux_payload (AuxRow.approval a) =
    AuxPayload.approval a.stage a.decision a.decided_by a.decided_by_role a.feedback
aux_payload (AuxRow.assignment a) =
    AuxPayload.task_assignment a.assignee_type a.assignee_id a.assigned_by
aux_payload (AuxRow.plan p) = AuxPayload.task_plan p.plan_path p.plan_sha p.submitted_by
aux_payload (AuxRow.implementation i) =
    AuxPayload.task_implementation i.pr_url i.commit_sha i.summary i.submitted_by

unfoldable pub aux_task : AuxRow → ℕ
aux_task (AuxRow.approval a) = a.task_id
aux_task (AuxRow.assignment a) = a.task_id
aux_task (AuxRow.plan p) = p.task_id
aux_task (AuxRow.implementation i) = i.task_id

-- A new assignment is not superseded yet.
unfoldable pub is_new_row : AuxRow → Bool
is_new_row (AuxRow.assignment a) = is_none a.superseded_at
is_new_row _ = true

remove-none : {A : Type 0} (p : A → Bool) (xs : List A) → find p xs ≡ none → remove p xs ≡ xs
unfolding find remove
remove-none p [] h = refl
remove-none p (x ∷ xs) h = ground (arith, remove-none p xs)

any-none : {A : Type 0} (p : A → Bool) (xs : List A) → find p xs ≡ none → any p xs ≡ false
unfolding find any
any-none p [] h = refl
any-none p (x ∷ xs) h = ground (arith, any-none p xs)

-- The outbox row of an auxiliary row.
abbrev outbox_row : ℕ → String → ℕ → AuxPayload → PendingAuxWrite
outbox_row corr name task payload = record {
  correlation_id = corr;
  signal_name = name;
  entity_type = "task";
  entity_id = task;
  payload = payload;
}

-- The session with the row in the outbox.
abbrev queued : PendingAuxWrite → Session → Session
queued p s = record s { db = record s.db { aux_writes = p ∷ s.db.aux_writes } }

-- The outbox row stands for the row that it was made from.
build-outbox_row :
    (corr : ℕ) (name : String) (row : AuxRow)
    → is_new_row row ≡ true
    → build_aux_row (outbox_row corr name (aux_task row) (aux_payload row)) ≡ some row
unfolding build_aux_row aux_payload aux_task is_new_row
build-outbox_row corr name (AuxRow.approval a) new = refl
build-outbox_row corr name (AuxRow.assignment a) new =
    let open_now : a.superseded_at ≡ none = ground arith in
    ap (λ o. some (AuxRow.assignment (record a { superseded_at = o }))) (sym open_now)
build-outbox_row corr name (AuxRow.plan p) new = refl
build-outbox_row corr name (AuxRow.implementation i) new = refl

-- The direct insert does not read the outbox.
insert-queued :
    (row : AuxRow) (p : PendingAuxWrite) (s : Session)
    → (insert_aux_row row s).0 ≡ ok tt
    → (insert_aux_row row (queued p s) ≡ (ok tt, queued p (insert_aux_row row s).1))
      × ((insert_aux_row row s).1.db.aux_writes ≡ s.db.aux_writes)
unfolding insert_aux_row find_task
insert-queued (AuxRow.approval a) p s h = (ground arith, ground arith)
insert-queued (AuxRow.assignment a) p s h = (ground arith, ground arith)
insert-queued (AuxRow.plan q) p s h = (ground arith, ground arith)
insert-queued (AuxRow.implementation i) p s h = (ground arith, ground arith)

module _ (corr : ℕ) (name : String) (s : Session)
    (fresh : find (is_pending corr) s.db.aux_writes ≡ none) where
  insert_aux_write-fresh :
      (task : ℕ) (payload : AuxPayload)
      → let p : PendingAuxWrite = outbox_row corr name task payload in
        insert_aux_write p s ≡ (ok tt, queued p s)
  unfolding insert_aux_write
  insert_aux_write-fresh task payload =
      ground (arith, any-none (is_pending corr) s.db.aux_writes fresh)

  enqueue-queued :
      (ctx : Ctx) (client : EngineClient) (task : ℕ) (payload : AuxPayload)
      → ctx.engine ≡ some client
      → enqueue_aux ctx corr name task payload s
        ≡ (ok tt, queued (outbox_row corr name task payload) s)
  unfolding enqueue_aux
  enqueue-queued ctx client task payload e =
      subst
        (λ o.
          when {S = Session} (is_some o) (insert_aux_write (outbox_row corr name task payload)) s
          ≡ (ok tt, queued (outbox_row corr name task payload) s))
        (sym e) (insert_aux_write-fresh task payload)

  materialize-queued :
      (row : AuxRow)
      → is_new_row row ≡ true
      → (insert_aux_row row s).0 ≡ ok tt
      → materialize_aux corr (queued (outbox_row corr name (aux_task row) (aux_payload row)) s)
        ≡ insert_aux_row row s
  unfolding materialize_aux find remove
  materialize-queued row new h =
      let p : PendingAuxWrite = outbox_row corr name (aux_task row) (aux_payload row) in
      let (run, same) = insert-queued row p s h in
      ground (
        arith,
        run,
        same,
        h,
        ==-refl corr,
        build-outbox_row corr name row new,
        remove-none (is_pending corr) s.db.aux_writes fresh,
      )

-- A row that goes through the outbox, put there with an engine and materialised by the webhook with
-- the same correlation id, leaves the session as the direct insert of that row does, where that
-- insert succeeds and the correlation id is new.
pub enqueue-materialize :
    (ctx : Ctx) (client : EngineClient) (corr : ℕ) (signal_name : String) (row : AuxRow)
    (s : Session)
    → ctx.engine ≡ some client
    → is_new_row row ≡ true
    → find (is_pending corr) s.db.aux_writes ≡ none
    → (insert_aux_row row s).0 ≡ ok tt
    → (enqueue_aux ctx corr signal_name (aux_task row) (aux_payload row) >> materialize_aux corr) s
      ≡ insert_aux_row row s
enqueue-materialize ctx client corr name row s e new fresh h =
    let q = enqueue-queued corr name s fresh ctx client (aux_task row) (aux_payload row) e in
    (ok_both (enqueue_aux ctx corr name (aux_task row) (aux_payload row)) (materialize_aux corr) s (
      ap (λ r. (◌>>◌ {S = Session} (λ (_ : Session). r) (materialize_aux corr) s).0) q
      ∙ ap (λ r. r.0) (materialize-queued corr name s fresh row new h)
      ∙ h)).1
    ∙ ap (λ r. materialize_aux corr r.1) q
    ∙ materialize-queued corr name s fresh row new h

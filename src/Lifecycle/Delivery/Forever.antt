-- ===== src/Lifecycle/Delivery/Forever.antt =====
-- No signal takes a work item out of `locked` once the key of its unlock signal has been used.
use carestechs_agent_orchest.Prelude.{
  ℕ, String, ◌≡◌, refl, ap, ==_iff, false≢true, sym, ◌∙◌, subst, Bool, true, false, Option, List,
  [], ◌∷◌, Result, ok, err, ◌==◌, find, is_some, Bool-cases, Option-cases, inl, inr, Keeps,
  keeps_rules,
}
use carestechs_agent_orchest.Enums.Lifecycle.{WorkItemStatus, ActorRole, AssigneeType}
use carestechs_agent_orchest.Lifecycle.Store.{Ctx, Db, Session, commit, settle}
use carestechs_agent_orchest.Lifecycle.Idempotency.{has_key}
use carestechs_agent_orchest.Lifecycle.Signals.{
  guarded_work_item_signal, lock_work_item_signal, unlock_work_item_signal, close_work_item_signal,
  approve_task_signal, reject_task_signal, assign_task_signal, defer_task_signal,
  submit_plan_signal, approve_plan_signal, reject_plan_signal, submit_implementation_signal,
  approve_review_signal, reject_review_signal,
}
use carestechs_agent_orchest.Lifecycle.Delivery.Requests.{
  Signal, is_new, lock, unlock, close, approve_task, reject_task, assign_task, defer_task,
  submit_plan, approve_plan, reject_plan, submit_implementation, approve_review, reject_review,
  handle, deliver, signal_key,
}
use carestechs_agent_orchest.Lifecycle.Delivery.Keys.{replay}
use carestechs_agent_orchest.Lifecycle.Delivery.Frames.{
  Both, IgnoresTasks, commit-Keeps, with_correlation-Keeps, enqueue_aux-Keeps, load_task-Keeps,
  insert_plan-Keeps, insert_implementation-Keeps,
}
use carestechs_agent_orchest.Lifecycle.Delivery.TaskFrames.{
  approve_task-Keeps, reject_task_proposal-Keeps, assign_task-Keeps, submit_plan-Keeps,
  approve_plan-Keeps, reject_plan-Keeps, submit_implementation-Keeps, approve_review-Keeps,
  reject_review-Keeps, defer_task-Keeps,
}
use carestechs_agent_orchest.Lifecycle.Delivery.Locked

-- Whether the request commits or rolls back.
rolled : {Q : Db → Type 0} (r : Result Bool × Session) → Both Q Q r.1 → Both Q Q (settle r).1
rolled (ok a, s) h = record { seen = h.seen; kept = h.seen }
rolled (err e, s) h = record { seen = h.kept; kept = h.kept }

module _ (ctx : Ctx) (id : ℕ) (key : String) where
  abbrev Stuck : Session → Type 0
  Stuck = Both (Locked.IsStuckLocked id key) (Locked.IsStuckLocked id key)

  commits : Keeps Stuck commit
  commits = commit-Keeps (λ db h. h)

  free : IgnoresTasks (Locked.IsStuckLocked id key)
  free = Locked.IsStuckLocked-ignores id key

  approve_task_signal-Keeps :
      (j : ℕ) (actor : String) → Keeps Stuck (approve_task_signal ctx j actor)
  unfolding approve_task_signal
  approve_task_signal-Keeps j actor =
      search
        (
          keeps_rules,
          commits,
          with_correlation-Keeps free,
          load_task-Keeps free,
          Locked.check_and_record-Keeps ctx id key,
          approve_task-Keeps free,
          enqueue_aux-Keeps free,
          Locked.advance_to_in_progress-Keeps ctx id key,
        )
        depth 30

  reject_task_signal-Keeps :
      (j : ℕ) (feedback actor : String) → Keeps Stuck (reject_task_signal ctx j feedback actor)
  unfolding reject_task_signal
  reject_task_signal-Keeps j feedback actor =
      search
        (
          keeps_rules,
          commits,
          with_correlation-Keeps free,
          load_task-Keeps free,
          Locked.check_and_record-Keeps ctx id key,
          reject_task_proposal-Keeps free,
        )
        depth 30

  assign_task_signal-Keeps :
      (j : ℕ) (kind : AssigneeType) (assignee actor : String)
      → Keeps Stuck (assign_task_signal ctx j kind assignee actor)
  unfolding assign_task_signal
  assign_task_signal-Keeps j kind assignee actor =
      search
        (
          keeps_rules,
          commits,
          with_correlation-Keeps free,
          load_task-Keeps free,
          Locked.check_and_record-Keeps ctx id key,
          assign_task-Keeps free,
          enqueue_aux-Keeps free,
        )
        depth 30

  defer_task_signal-Keeps :
      (j : ℕ) (reason : Option String) (actor : String)
      → Keeps Stuck (defer_task_signal ctx j reason actor)
  unfolding defer_task_signal
  defer_task_signal-Keeps j reason actor =
      search
        (
          keeps_rules,
          commits,
          with_correlation-Keeps free,
          load_task-Keeps free,
          Locked.check_and_record-Keeps ctx id key,
          defer_task-Keeps free,
          Locked.advance_to_ready-Keeps ctx id key,
        )
        depth 30

  submit_plan_signal-Keeps :
      (j : ℕ) (path sha actor : String) → Keeps Stuck (submit_plan_signal ctx j path sha actor)
  unfolding submit_plan_signal
  submit_plan_signal-Keeps j path sha actor =
      search
        (
          keeps_rules,
          commits,
          with_correlation-Keeps free,
          load_task-Keeps free,
          Locked.check_and_record-Keeps ctx id key,
          submit_plan-Keeps free,
          enqueue_aux-Keeps free,
          insert_plan-Keeps free,
        )
        depth 30

  approve_plan_signal-Keeps :
      (j : ℕ) (actor : String) (role : ActorRole) (solo : Bool)
      → Keeps Stuck (approve_plan_signal ctx j actor role solo)
  unfolding approve_plan_signal
  approve_plan_signal-Keeps j actor role solo =
      search
        (
          keeps_rules,
          commits,
          with_correlation-Keeps free,
          load_task-Keeps free,
          Locked.check_and_record-Keeps ctx id key,
          approve_plan-Keeps free,
          enqueue_aux-Keeps free,
        )
        depth 30

  reject_plan_signal-Keeps :
      (j : ℕ) (feedback actor : String) (role : ActorRole) (solo : Bool)
      → Keeps Stuck (reject_plan_signal ctx j feedback actor role solo)
  unfolding reject_plan_signal
  reject_plan_signal-Keeps j feedback actor role solo =
      search
        (
          keeps_rules,
          commits,
          with_correlation-Keeps free,
          load_task-Keeps free,
          Locked.check_and_record-Keeps ctx id key,
          reject_plan-Keeps free,
        )
        depth 30

  submit_implementation_signal-Keeps :
      (j : ℕ) (url : Option String) (sha summary actor : String)
      → Keeps Stuck (submit_implementation_signal ctx j url sha summary actor)
  unfolding submit_implementation_signal
  submit_implementation_signal-Keeps j url sha summary actor =
      search
        (
          keeps_rules,
          commits,
          with_correlation-Keeps free,
          load_task-Keeps free,
          Locked.check_and_record-Keeps ctx id key,
          submit_implementation-Keeps free,
          enqueue_aux-Keeps free,
          insert_implementation-Keeps free,
        )
        depth 30

  approve_review_signal-Keeps :
      (j : ℕ) (actor : String) (role : ActorRole) (solo : Bool)
      → Keeps Stuck (approve_review_signal ctx j actor role solo)
  unfolding approve_review_signal
  approve_review_signal-Keeps j actor role solo =
      search
        (
          keeps_rules,
          commits,
          with_correlation-Keeps free,
          load_task-Keeps free,
          Locked.check_and_record-Keeps ctx id key,
          approve_review-Keeps free,
          enqueue_aux-Keeps free,
          Locked.advance_to_ready-Keeps ctx id key,
        )
        depth 30

  reject_review_signal-Keeps :
      (j : ℕ) (feedback actor : String) (role : ActorRole) (solo : Bool)
      → Keeps Stuck (reject_review_signal ctx j feedback actor role solo)
  unfolding reject_review_signal
  reject_review_signal-Keeps j feedback actor role solo =
      search
        (
          keeps_rules,
          commits,
          with_correlation-Keeps free,
          load_task-Keeps free,
          Locked.check_and_record-Keeps ctx id key,
          reject_review-Keeps free,
        )
        depth 30

  lock_signal-Keeps :
      (j : ℕ) (reason : Option String) (actor : String)
      → Keeps Stuck (lock_work_item_signal ctx j reason actor)
  unfolding lock_work_item_signal guarded_work_item_signal
  lock_signal-Keeps j reason actor =
      search
        (
          keeps_rules,
          commits,
          Locked.check_and_record-Keeps ctx id key,
          Locked.load_work_item-Keeps ctx id key,
          Locked.lock_work_item-Keeps ctx id key,
        )
        depth 30

  close_signal-Keeps :
      (j : ℕ) (notes : Option String) (actor : String)
      → Keeps Stuck (close_work_item_signal ctx j notes actor)
  unfolding close_work_item_signal guarded_work_item_signal
  close_signal-Keeps j notes actor =
      search
        (
          keeps_rules,
          commits,
          Locked.check_and_record-Keeps ctx id key,
          Locked.load_work_item-Keeps ctx id key,
          Locked.close_work_item-Keeps ctx id key,
        )
        depth 30

  unlock_other-Keeps :
      (j : ℕ) (actor : String)
      → (j == id) ≡ false
      → Keeps Stuck (unlock_work_item_signal ctx j actor)
  unfolding unlock_work_item_signal guarded_work_item_signal
  unlock_other-Keeps j actor other =
      search
        (
          keeps_rules,
          commits,
          Locked.check_and_record-Keeps ctx id key,
          Locked.load_work_item-Keeps ctx id key,
          Locked.unlock_work_item-Keeps ctx id key,
          other,
        )
        depth 30

  -- Unlocking this one: the key is there, so nothing happens.
  unlock_self :
      (j : ℕ) (actor : String) (s : Session)
      → signal_key ctx (unlock id actor) ≡ key
      → (j == id) ≡ true
      → Stuck s
      → Stuck (handle ctx (unlock j actor) s).1
  unlock_self j actor s known same h = elim (Option-cases (find (has_key key) s.db.signals)) [
    | inl none_there ↦ absurd (false≢true (sym (ap is_some none_there) ∙ h.seen.used))
    | inr (row, e) ↦
        rw
          (replay ctx s row (unlock j actor) (
            ap (λ k. find (has_key k) s.db.signals)
              (ap (λ i. signal_key ctx (unlock i actor)) ((==_iff j id).0 same) ∙ known)
            ∙ e))
          h
  ]

  module _ (known : (actor : String) → signal_key ctx (unlock id actor) ≡ key) where
    unlock_signal-Keeps : (j : ℕ) (actor : String) → Keeps Stuck (handle ctx (unlock j actor))
    unfolding handle
    unlock_signal-Keeps j actor = record {
      at = λ s h. elim (Bool-cases (j == id)) [
        | inl same ↦ unlock_self j actor s (known actor) same h
        | inr other ↦
            (let k : Keeps Stuck (unlock_work_item_signal ctx j actor) =
                unlock_other-Keeps j actor other in
              let m : Keeps Stuck (is_new (unlock_work_item_signal ctx j actor)) =
                search (keeps_rules, k) depth 9 in
              m.at s h)
      ];
    }

    handle-Keeps : (signal : Signal) → Keeps Stuck (handle ctx signal)
    unfolding handle
    handle-Keeps (lock j reason actor) = search (keeps_rules, lock_signal-Keeps) depth 9
    handle-Keeps (unlock j actor) = unlock_signal-Keeps j actor
    handle-Keeps (close j notes actor) = search (keeps_rules, close_signal-Keeps) depth 9
    handle-Keeps (approve_task j actor) = search (keeps_rules, approve_task_signal-Keeps) depth 9
    handle-Keeps (reject_task j feedback actor) =
        search (keeps_rules, reject_task_signal-Keeps) depth 9
    handle-Keeps (assign_task j kind assignee actor) =
        search (keeps_rules, assign_task_signal-Keeps) depth 9
    handle-Keeps (defer_task j reason actor) = search (keeps_rules, defer_task_signal-Keeps) depth 9
    handle-Keeps (submit_plan j path sha actor) =
        search (keeps_rules, submit_plan_signal-Keeps) depth 9
    handle-Keeps (approve_plan j actor role solo) =
        search (keeps_rules, approve_plan_signal-Keeps) depth 9
    handle-Keeps (reject_plan j feedback actor role solo) =
        search (keeps_rules, reject_plan_signal-Keeps) depth 9
    handle-Keeps (submit_implementation j url sha summary actor) =
        search (keeps_rules, submit_implementation_signal-Keeps) depth 9
    handle-Keeps (approve_review j actor role solo) =
        search (keeps_rules, approve_review_signal-Keeps) depth 9
    handle-Keeps (reject_review j feedback actor role solo) =
        search (keeps_rules, reject_review_signal-Keeps) depth 9

    -- Once a work item is locked and its unlock key is used, every signal request, whatever it is
    -- and whether it succeeds or raises, leaves it locked with the key used, in the session and in
    -- what is committed.
    pub deliver-Stuck : (signal : Signal) (s : Session) → Stuck s → Stuck (deliver ctx signal s).1
    unfolding deliver
    deliver-Stuck signal s h = rolled (handle ctx signal s) ((handle-Keeps signal).at s h)

-- Requests at their times, one after the other, to one deployment.
unfoldable pub deliver_all : Ctx → List (ℕ × Signal) → Session → Session
deliver_all ctx [] s = s
deliver_all ctx ((now, signal) ∷ rest) s =
    deliver_all ctx rest (deliver (record ctx { now = now }) signal s).1

deliver_all-Stuck :
    (ctx : Ctx) (id : ℕ) (key : String)
    → ((actor : String) → signal_key ctx (unlock id actor) ≡ key)
    → (requests : List (ℕ × Signal)) (s : Session) → Stuck ctx id key s
    → Stuck ctx id key (deliver_all ctx requests s)
unfolding deliver_all signal_key
deliver_all-Stuck ctx id key known [] s h = h
deliver_all-Stuck ctx id key known ((now, signal) ∷ rest) s h =
    deliver_all-Stuck ctx id key known rest (deliver (record ctx { now = now }) signal s).1
      (deliver-Stuck (record ctx { now = now }) id key known signal s h)

-- From a state between requests, where all is committed: a work item that is locked after the key
-- of its unlock signal was used, as it is once it has been locked, unlocked and locked again, stays
-- locked whatever signals S2 to S14 are delivered, in any number and at any times.
pub second_lock_is_final :
    (ctx : Ctx) (id : ℕ) (actor : String) (requests : List (ℕ × Signal)) (s : Session)
    → s.committed ≡ s.db
    → Locked.has_status id WorkItemStatus.locked s.db.work_items ≡ true
    → is_some (find (has_key (signal_key ctx (unlock id actor))) s.db.signals) ≡ true
    → Locked.has_status id WorkItemStatus.locked (deliver_all ctx requests s).db.work_items ≡ true
unfolding signal_key
second_lock_is_final ctx id actor requests s clean locked used =
    (deliver_all-Stuck ctx id (signal_key ctx (unlock id actor)) (λ a. refl) requests s
      (record {
        seen = record { locked = locked; used = used };
        kept =
            subst (Locked.IsStuckLocked id (signal_key ctx (unlock id actor))) (sym clean)
              (record { locked = locked; used = used });
      })).seen.locked

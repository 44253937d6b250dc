-- ===== src/Lifecycle/Delivery/Again.antt =====
-- A signal that was answered without an error is a replay when it comes again.
use carestechs_agent_orchest.Prelude.{
  ℕ, ◌≡◌, refl, ap, Bool, false, ok, err, not_found, find, Option-cases, inl, inr, is_some,
  false≢true, sym, ◌∙◌, keeps_rules, if◌then◌else◌, Result, arith, subst,
}
use carestechs_agent_orchest.Lifecycle.Store.{Ctx, Session, settle}
use carestechs_agent_orchest.Lifecycle.Idempotency.{has_key}
use carestechs_agent_orchest.Lifecycle.Delivery.Requests.{
  Signal, lock, unlock, close, approve_task, reject_task, assign_task, defer_task, submit_plan,
  approve_plan, reject_plan, submit_implementation, approve_review, reject_review, handle, deliver,
  signal_key,
}
use carestechs_agent_orchest.Lifecycle.Delivery.Keys.{replay, is_known}
use carestechs_agent_orchest.Lifecycle.Delivery.Recorded.{
  Sets, Sets-bind, HasKey, Recorded, lock_work_item_signal-Sets, unlock_work_item_signal-Sets,
  close_work_item_signal-Sets, approve_task_signal-Sets, reject_task_signal-Sets,
  assign_task_signal-Sets, defer_task_signal-Sets, submit_plan_signal-Sets,
  approve_plan_signal-Sets, reject_plan_signal-Sets, submit_implementation_signal-Sets,
  approve_review_signal-Sets, reject_review_signal-Sets,
}

handle-Sets :
    (ctx : Ctx) (signal : Signal) → Sets (Recorded ctx (signal_key ctx signal)) (handle ctx signal)
unfolding handle signal_key
handle-Sets ctx (lock j reason actor) =
    search
      (
        Sets-bind,
        keeps_rules,
        lock_work_item_signal-Sets ctx (signal_key ctx (lock j reason actor)) j reason actor refl,
      )
      depth 9
handle-Sets ctx (unlock j actor) =
    search
      (
        Sets-bind,
        keeps_rules,
        unlock_work_item_signal-Sets ctx (signal_key ctx (unlock j actor)) j actor refl,
      )
      depth 9
handle-Sets ctx (close j notes actor) =
    search
      (
        Sets-bind,
        keeps_rules,
        close_work_item_signal-Sets ctx (signal_key ctx (close j notes actor)) j notes actor refl,
      )
      depth 9
handle-Sets ctx (approve_task j actor) =
    search
      (
        Sets-bind,
        keeps_rules,
        approve_task_signal-Sets ctx (signal_key ctx (approve_task j actor)) j actor refl,
      )
      depth 9
handle-Sets ctx (reject_task j feedback actor) =
    search
      (
        Sets-bind,
        keeps_rules,
        reject_task_signal-Sets ctx (signal_key ctx (reject_task j feedback actor)) j feedback actor
            refl,
      )
      depth 9
handle-Sets ctx (assign_task j kind assignee actor) =
    search
      (
        Sets-bind,
        keeps_rules,
        assign_task_signal-Sets ctx (signal_key ctx (assign_task j kind assignee actor)) j kind
            assignee actor refl,
      )
      depth 9
handle-Sets ctx (defer_task j reason actor) =
    search
      (
        Sets-bind,
        keeps_rules,
        defer_task_signal-Sets ctx (signal_key ctx (defer_task j reason actor)) j reason actor refl,
      )
      depth 9
handle-Sets ctx (submit_plan j path sha actor) =
    search
      (
        Sets-bind,
        keeps_rules,
        submit_plan_signal-Sets ctx (signal_key ctx (submit_plan j path sha actor)) j path sha actor
            refl,
      )
      depth 9
handle-Sets ctx (approve_plan j actor role solo) =
    search
      (
        Sets-bind,
        keeps_rules,
        approve_plan_signal-Sets ctx (signal_key ctx (approve_plan j actor role solo)) j actor role
            solo refl,
      )
      depth 9
handle-Sets ctx (reject_plan j feedback actor role solo) =
    search
      (
        Sets-bind,
        keeps_rules,
        reject_plan_signal-Sets ctx (signal_key ctx (reject_plan j feedback actor role solo)) j
            feedback actor role solo refl,
      )
      depth 9
handle-Sets ctx (submit_implementation j url sha summary actor) =
    search
      (
        Sets-bind,
        keeps_rules,
        submit_implementation_signal-Sets ctx
            (signal_key ctx (submit_implementation j url sha summary actor)) j url sha summary actor
            refl,
      )
      depth 9
handle-Sets ctx (approve_review j actor role solo) =
    search
      (
        Sets-bind,
        keeps_rules,
        approve_review_signal-Sets ctx (signal_key ctx (approve_review j actor role solo)) j actor
            role solo refl,
      )
      depth 9
handle-Sets ctx (reject_review j feedback actor role solo) =
    search
      (
        Sets-bind,
        keeps_rules,
        reject_review_signal-Sets ctx (signal_key ctx (reject_review j feedback actor role solo)) j
            feedback actor role solo refl,
      )
      depth 9

-- A request that was answered without an error is what its handler did, and is committed.
settle-ok : (r : Result Bool × Session) (new : Bool) → (settle r).0 ≡ ok new → r.0 ≡ ok new
settle-ok (ok a, s) new h = h
settle-ok (err e, s) new h = h

settle-db :
    (r : Result Bool × Session) (new : Bool) → (settle r).0 ≡ ok new → (settle r).1.db ≡ r.1.db
settle-db (ok a, s) new h = refl
settle-db (err e, s) new h = ground arith

settle-committed : (r : Result Bool × Session) → (settle r).1.committed ≡ (settle r).1.db
settle-committed (ok a, s) = refl
settle-committed (err e, s) = refl

deliver-committed :
    (ctx : Ctx) (signal : Signal) (s : Session)
    → (deliver ctx signal s).1.committed ≡ (deliver ctx signal s).1.db
unfolding deliver
deliver-committed ctx signal s = settle-committed (handle ctx signal s)

settle-clean :
    (b : Bool) (s : Session)
    → s.committed ≡ s.db
    → settle ((if b then ok false else err not_found), s)
      ≡ ((if b then ok false else err not_found), s)
settle-clean b s h = ground arith

deliver-replay :
    (ctx : Ctx) (signal : Signal) (s : Session)
    → HasKey (signal_key ctx signal) s.db
    → s.committed ≡ s.db
    → deliver ctx signal s ≡ ((if is_known signal s.db then ok false else err not_found), s)
unfolding deliver
deliver-replay ctx signal s used clean =
    elim (Option-cases (find (has_key (signal_key ctx signal)) s.db.signals)) [
      | inl none_there ↦ absurd (false≢true (sym (ap is_some none_there) ∙ used))
      | inr (row, e) ↦ rw (replay ctx s row signal e) (settle-clean (is_known signal s.db) s clean)
    ]

deliver-used :
    (ctx : Ctx) (signal : Signal) (s : Session) (new : Bool)
    → (deliver ctx signal s).0 ≡ ok new
    → HasKey (signal_key ctx signal) (deliver ctx signal s).1.db
unfolding deliver
deliver-used ctx signal s new h =
    subst (HasKey (signal_key ctx signal)) (sym (settle-db (handle ctx signal s) new h))
      ((handle-Sets ctx signal).at s new (settle-ok (handle ctx signal s) new h)).seen

-- A signal S2 to S14 that was answered without an error, delivered to the same deployment again at
-- any time, changes nothing: neither the database nor what is committed nor the calls to the
-- engine. It is answered as one that is not new, or as not found where its entity is not there.
pub deliver_twice :
    (ctx : Ctx) (later : ℕ) (signal : Signal) (s : Session) (new : Bool)
    → (deliver ctx signal s).0 ≡ ok new
    → deliver (record ctx { now = later }) signal (deliver ctx signal s).1 ≡ (
      (if is_known signal (deliver ctx signal s).1.db then ok false else err not_found),
      (deliver ctx signal s).1,
    )
unfolding signal_key
deliver_twice ctx later signal s new h =
    deliver-replay (record ctx { now = later }) signal (deliver ctx signal s).1
      (deliver-used ctx signal s new h) (deliver-committed ctx signal s)

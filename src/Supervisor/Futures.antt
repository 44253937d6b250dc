-- ===== src/Supervisor/Futures.antt =====
-- A dispatch's future is settled once: the first delivery or cancellation is what its waiter gets
-- (modules/ai/supervisor.py).
use carestechs_agent_orchest.Prelude.{ℕ, true, none, some, List, all, ◌≡◌, refl, sym, subst, arith}
use carestechs_agent_orchest.Runtime.State.{DispatchEnvelope}
use carestechs_agent_orchest.Supervisor.State.{
  Future, pending, resolved, Supervisor, value_at, settle_at, deliver_dispatch, await_end,
}
use carestechs_agent_orchest.Supervisor.Calls.{Op, apply_ops, idle_supervisor, outcome}
use carestechs_agent_orchest.Supervisor.Heap.{
  is_done, IsFresh, value_at-settle_at-done, value_at-new, settle_at-pending,
}
use carestechs_agent_orchest.Supervisor.Kept.{apply_ops-Kept, deliver_dispatch-Kept}

pub apply_ops-IsFresh : (ops : List Op) → IsFresh (apply_ops ops idle_supervisor)
unfolding all
apply_ops-IsFresh ops =
    (apply_ops-Kept (λ _. true ≡ true) (λ _ _ _ h. h) (λ _ _ _ h. h) ops idle_supervisor
      (record { fresh = record { at = refl }; holds = refl })).fresh

-- A future that is done stays as it is.
pub value_at-apply_ops :
    (place : ℕ) (f : Future) (ops : List Op) (s : Supervisor)
    → is_done f ≡ true
    → IsFresh s
    → value_at place s.heap ≡ some f
    → value_at place (apply_ops ops s).heap ≡ some f
value_at-apply_ops place f ops s done fresh there =
    (apply_ops-Kept (λ heap. value_at place heap ≡ some f)
      (λ other g heap h. value_at-settle_at-done place other f g heap done h)
      (λ next heap below h. value_at-new place f next heap below h) ops s
      (record { fresh = fresh; holds = there })).holds

await_end-resolved :
    (id place : ℕ) (e : DispatchEnvelope) (s : Supervisor)
    → value_at place s.heap ≡ some (resolved e)
    → outcome (await_end id place s) ≡ some (resolved e)
unfolding await_end
await_end-resolved id place e s h = ground (arith, h)

deliver_dispatch-resolved :
    (id place : ℕ) (e : DispatchEnvelope) (s : Supervisor)
    → value_at id s.dispatch_futures ≡ some place
    → value_at place s.heap ≡ some pending
    → value_at place (deliver_dispatch id e s).heap ≡ some (resolved e)
unfolding deliver_dispatch
deliver_dispatch-resolved id place e s at waits =
    subst
      (λ p.
        value_at place
          (elim p as (λ _. Supervisor) [
            | none ↦ s
            | some place ↦ record s { heap = settle_at place (resolved e) s.heap }
          ]).heap
        ≡ some (resolved e))
      (sym at) (settle_at-pending place (resolved e) s.heap waits)

deliver_dispatch-IsFresh :
    (id : ℕ) (e : DispatchEnvelope) (s : Supervisor) → IsFresh s → IsFresh (deliver_dispatch id e s)
deliver_dispatch-IsFresh id e s fresh =
    (deliver_dispatch-Kept (λ _. true ≡ true) (λ _ _ _ h. h) (λ _ _ _ h. h) id e s
      (record { fresh = fresh; holds = refl })).fresh

-- After any calls, let a dispatch that is registered have a pending future. Then once an envelope is
-- delivered for it, and whatever calls come after, in any order, with other deliveries for the dispatch, waits that end,
-- and the purge of its run among them, the wait for that future ends with that envelope.
pub deliver_dispatch-first :
    (before after : List Op) (id place : ℕ) (e : DispatchEnvelope)
    → value_at id (apply_ops before idle_supervisor).dispatch_futures ≡ some place
    → value_at place (apply_ops before idle_supervisor).heap ≡ some pending
    → outcome (
        await_end id place
          (apply_ops after (deliver_dispatch id e (apply_ops before idle_supervisor))))
      ≡ some (resolved e)
deliver_dispatch-first before after id place e at waits =
    let s = apply_ops before idle_supervisor in
    let delivered = deliver_dispatch id e s in
    await_end-resolved id place e (apply_ops after delivered) (
      value_at-apply_ops place (resolved e) after delivered refl
        (deliver_dispatch-IsFresh id e s (apply_ops-IsFresh before))
        (deliver_dispatch-resolved id place e s at waits))

-- ===== src/Supervisor/Kept.antt =====
-- What every call of the supervisor keeps of the heap of futures (modules/ai/supervisor.py).
use carestechs_agent_orchest.Prelude.{
  ℕ, true, false, none, some, is_some, List, [], ◌∷◌, ◌==◌, all, ◌≡◌, refl, sym, subst, arith,
  if◌then◌else◌, remove,
}
use carestechs_agent_orchest.Runtime.State.{DispatchEnvelope}
use carestechs_agent_orchest.Supervisor.State.{
  Future, pending, resolved, dispatch_cancelled, Supervisor, value_at, settle_at, register_dispatch,
  deliver_dispatch, await_start, await_end, forget, cancel_dispatch, cancel_dispatches,
  purge_signals_for_run, deliver_signal, take_signal, with_future,
}
use carestechs_agent_orchest.Supervisor.Calls.{
  Op, register, deliver, start, finish, purge, signal, take, after_end, apply_op, apply_ops,
}
use carestechs_agent_orchest.Supervisor.Heap.{
  below_next, IsFresh, below_next-settle_at, below_next-suc,
}

-- What stays true of the heap from one operation to the next.
pub record Kept (P : List (ℕ × Future) → Type 0) (s : Supervisor) : Type 0 where
  pub fresh : IsFresh s
  pub holds : P s.heap

module _ (P : List (ℕ × Future) → Type 0)
    (on_settle : (place : ℕ) (f : Future) (heap : List (ℕ × Future))
      → P heap
      → P (settle_at place f heap))
    (on_new : (next : ℕ) (heap : List (ℕ × Future))
      → below_next next heap ≡ true
      → P heap
      → P ((next, pending) ∷ heap)) where
  pub settle_at-Kept :
      (other : ℕ) (g : Future) (s s' : Supervisor)
      → s'.heap ≡ settle_at other g s.heap
      → s'.next_place ≡ s.next_place
      → Kept P s
      → Kept P s'
  settle_at-Kept other g s s' h n t = record {
    fresh = record {
      at =
          subst (λ m. below_next m s'.heap ≡ true) (sym n)
            (subst (λ m. below_next s.next_place m ≡ true) (sym h)
              (below_next-settle_at s.next_place other g s.heap t.fresh.at));
    };
    holds = subst P (sym h) (on_settle other g s.heap t.holds);
  }

  pub same_heap-Kept :
      (s s' : Supervisor) → s'.heap ≡ s.heap → s'.next_place ≡ s.next_place → Kept P s → Kept P s'
  same_heap-Kept s s' h n t = record {
    fresh = record {
      at =
          subst (λ m. below_next m s'.heap ≡ true) (sym n)
            (subst (λ m. below_next s.next_place m ≡ true) (sym h) t.fresh.at);
    };
    holds = subst P (sym h) t.holds;
  }

  pub new_future-Kept : (id : ℕ) (s : Supervisor) → Kept P s → Kept P (with_future id s)
  unfolding all
  new_future-Kept id s t = record {
    fresh = record { at = ground (arith, below_next-suc s.next_place s.heap t.fresh.at) };
    holds = on_new s.next_place s.heap t.fresh.at t.holds;
  }

  pub register_dispatch-Kept :
      (run id : ℕ) (s : Supervisor) → Kept P s → Kept P (register_dispatch run id s)
  unfolding register_dispatch
  register_dispatch-Kept run id s t =
      elim (is_some (value_at id s.dispatch_futures))
        as (λ b. Kept P (
          if b
          then s
          else record (with_future id s) { dispatches_by_run = (run, id) ∷ s.dispatches_by_run })) [
            | true ↦ t
            | false ↦
                same_heap-Kept (with_future id s)
                  (record (with_future id s) {
                    dispatches_by_run = (run, id) ∷ s.dispatches_by_run;
                  })
                  refl refl (new_future-Kept id s t)
          ]

  pub deliver_dispatch-Kept :
      (id : ℕ) (e : DispatchEnvelope) (s : Supervisor) → Kept P s → Kept P (deliver_dispatch id e s)
  unfolding deliver_dispatch
  deliver_dispatch-Kept id e s t =
      elim (value_at id s.dispatch_futures)
        as (λ p. Kept P (elim p [
          | none ↦ s
          | some place ↦ record s { heap = settle_at place (resolved e) s.heap }
        ])) [
          | none ↦ t
          | some p ↦
              settle_at-Kept p (resolved e) s (record s { heap = settle_at p (resolved e) s.heap })
                refl refl t
        ]

  pub await_start-Kept : (id : ℕ) (s : Supervisor) → Kept P s → Kept P (await_start id s).1
  unfolding await_start
  await_start-Kept id s t =
      elim (value_at id s.dispatch_futures)
        as (λ p. Kept P (
          (elim p as (λ _. ℕ × Supervisor) [
            | some place ↦ (place, s)
            | none ↦ (s.next_place, with_future id s)
          ]).1)) [ none ↦ new_future-Kept id s t | some p ↦ t ]

  pub forget-Kept : (id : ℕ) (s : Supervisor) → Kept P s → Kept P (forget id s)
  unfolding forget
  forget-Kept id s t = same_heap-Kept s (forget id s) refl refl t

  pub await_end-Kept :
      (id at : ℕ) (s : Supervisor) → Kept P s → Kept P (after_end s (await_end id at s))
  unfolding await_end
  await_end-Kept id at s t =
      elim (value_at at s.heap)
        as (λ v. Kept P (
          after_end s (elim v [
            | none ↦ none
            | some pending ↦ none
            | some (resolved e) ↦ some (resolved e, forget id s)
            | some dispatch_cancelled ↦ some (dispatch_cancelled, forget id s)
          ]))) [
            | none ↦ t
            | some pending ↦ t
            | some (resolved e) ↦ forget-Kept id s t
            | some dispatch_cancelled ↦ forget-Kept id s t
          ]

  pub cancel_dispatch-Kept : (id : ℕ) (s : Supervisor) → Kept P s → Kept P (cancel_dispatch id s)
  unfolding cancel_dispatch
  cancel_dispatch-Kept id s t =
      elim (value_at id s.dispatch_futures)
        as (λ p. Kept P (elim p [
          | none ↦ s
          | some place ↦ record s {
            heap = settle_at place dispatch_cancelled s.heap;
            dispatch_futures = remove (λ e. e.0 == id) s.dispatch_futures;
          }
        ])) [
          | none ↦ t
          | some p ↦
              settle_at-Kept p dispatch_cancelled s
                (record s {
                  heap = settle_at p dispatch_cancelled s.heap;
                  dispatch_futures = remove (λ e. e.0 == id) s.dispatch_futures;
                })
                refl refl t
        ]

  pub cancel_dispatches-Kept :
      (entries : List (ℕ × ℕ)) (run : ℕ) (s : Supervisor)
      → Kept P s
      → Kept P (cancel_dispatches entries run s)
  unfolding cancel_dispatches
  cancel_dispatches-Kept [] run s t = t
  cancel_dispatches-Kept ((r, id) ∷ rest) run s t =
      cancel_dispatches-Kept rest run (if r == run then cancel_dispatch id s else s)
        (elim (r == run) as (λ b. Kept P (if b then cancel_dispatch id s else s)) [
          | true ↦ cancel_dispatch-Kept id s t
          | false ↦ t
        ])

  pub purge_signals_for_run-Kept :
      (run : ℕ) (s : Supervisor) → Kept P s → Kept P (purge_signals_for_run run s)
  unfolding purge_signals_for_run
  purge_signals_for_run-Kept run s t =
      same_heap-Kept _ (purge_signals_for_run run s) refl refl
        (cancel_dispatches-Kept s.dispatches_by_run run _ (same_heap-Kept s _ refl refl t))

  pub apply_op-Kept : (op : Op) (s : Supervisor) → Kept P s → Kept P (apply_op op s)
  unfolding apply_op deliver_signal take_signal
  apply_op-Kept (register run id) s t = register_dispatch-Kept run id s t
  apply_op-Kept (deliver id e) s t = deliver_dispatch-Kept id e s t
  apply_op-Kept (start id) s t = await_start-Kept id s t
  apply_op-Kept (finish id at) s t = await_end-Kept id at s t
  apply_op-Kept (purge run) s t = purge_signals_for_run-Kept run s t
  apply_op-Kept (signal key payload) s t =
      same_heap-Kept s (deliver_signal key payload s) refl refl t
  apply_op-Kept (take key) s t = same_heap-Kept s (take_signal key s).1 refl refl t

  pub apply_ops-Kept : (ops : List Op) (s : Supervisor) → Kept P s → Kept P (apply_ops ops s)
  unfolding apply_ops
  apply_ops-Kept [] s t = t
  apply_ops-Kept (op ∷ rest) s t = apply_ops-Kept rest (apply_op op s) (apply_op-Kept op s t)

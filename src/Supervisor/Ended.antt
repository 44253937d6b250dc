-- ===== src/Supervisor/Ended.antt =====
-- The dispatches of a run that has ended: their waiters get the cancellation (modules/ai/supervisor.py).
use carestechs_agent_orchest.Prelude.{
  ℕ, true, false, ◌&&◌, none, some, List, [], ◌∷◌, ◌==◌, ==_iff, Bool-cases, any, ◌≡◌, ◌⊎◌, inl,
  inr, refl, sym, ◌∙◌, subst, arith, remove, if◌then◌else◌,
}
use carestechs_agent_orchest.Supervisor.State.{
  Future, pending, dispatch_cancelled, Supervisor, value_at, settle_at, await_end, cancel_dispatch,
  cancel_dispatches, purge_signals_for_run,
}
use carestechs_agent_orchest.Supervisor.Calls.{Op, apply_ops, idle_supervisor, outcome}
use carestechs_agent_orchest.Supervisor.Heap.{
  IsFresh, value_at-settle_at-done, value_at-new, settle_at-pending,
}
use carestechs_agent_orchest.Supervisor.Kept.{Kept, settle_at-Kept, cancel_dispatches-Kept}
use carestechs_agent_orchest.Supervisor.Futures.{apply_ops-IsFresh, value_at-apply_ops}

-- A dispatch is registered, and its future is pending.
record IsUnderWay (id place : ℕ) (s : Supervisor) : Type 0 where
  fresh : IsFresh s
  at : value_at id s.dispatch_futures ≡ some place
  waits : value_at place s.heap ≡ some pending

-- The future at a place is cancelled.
abbrev IsOver : ℕ → List (ℕ × Future) → Type 0
IsOver place heap = value_at place heap ≡ some dispatch_cancelled

value_at-settle_at-pending :
    (place other : ℕ) (f : Future) (heap : List (ℕ × Future))
    → value_at place heap ≡ some pending
    → (value_at place (settle_at other f heap) ≡ some pending)
      ⊎ (value_at place (settle_at other f heap) ≡ some f)
unfolding value_at settle_at
value_at-settle_at-pending place other f [] h = ground (arith, h)
value_at-settle_at-pending place other f ((k, g) ∷ rest) h =
    ground (arith, h, value_at-settle_at-pending place other f rest)

value_at-remove :
    (id other : ℕ) (entries : List (ℕ × ℕ))
    → (other == id) ≡ false
    → value_at id (remove (λ e. e.0 == other) entries) ≡ value_at id entries
unfolding value_at remove
value_at-remove id other [] h = refl
value_at-remove id other ((k, v) ∷ rest) h = ground (arith, value_at-remove id other rest)

settle_at-IsFresh :
    (other : ℕ) (g : Future) (s s' : Supervisor)
    → s'.heap ≡ settle_at other g s.heap
    → s'.next_place ≡ s.next_place
    → IsFresh s
    → IsFresh s'
settle_at-IsFresh other g s s' h n fresh =
    (settle_at-Kept (λ _. true ≡ true) (λ _ _ _ k. k) (λ _ _ _ k. k) other g s s' h n
      (record { fresh = fresh; holds = refl })).fresh

cancel_dispatches-Kept-IsOver :
    (entries : List (ℕ × ℕ)) (run place : ℕ) (s : Supervisor)
    → Kept (IsOver place) s
    → Kept (IsOver place) (cancel_dispatches entries run s)
cancel_dispatches-Kept-IsOver entries run place s kept =
    cancel_dispatches-Kept (IsOver place)
      (λ other g heap h. value_at-settle_at-done place other dispatch_cancelled g heap refl h)
      (λ next heap below h. value_at-new place dispatch_cancelled next heap below h) entries run s
      kept

-- The supervisor where a registered dispatch is cancelled.
abbrev cancelled_at : ℕ → ℕ → Supervisor → Supervisor
cancelled_at other p s = record s {
  heap = settle_at p dispatch_cancelled s.heap;
  dispatch_futures = remove (λ e. e.0 == other) s.dispatch_futures;
}

-- Another dispatch of the run that ends, or a dispatch of another run.
cancel_dispatch-IsUnderWay :
    (id other place : ℕ) (s : Supervisor)
    → (other == id) ≡ false
    → IsUnderWay id place s
    → IsUnderWay id place (cancel_dispatch other s) ⊎ Kept (IsOver place) (cancel_dispatch other s)
unfolding cancel_dispatch
cancel_dispatch-IsUnderWay id other place s differ way =
    elim (value_at other s.dispatch_futures)
      as (λ found.
        IsUnderWay id place (elim found [ none ↦ s | some p ↦ cancelled_at other p s ])
        ⊎ Kept (IsOver place) (elim found [ none ↦ s | some p ↦ cancelled_at other p s ])) [
          | none ↦ inl way
          | some p ↦ elim (value_at-settle_at-pending place p dispatch_cancelled s.heap way.waits) [
            | inl still ↦ inl (record {
              fresh =
                  settle_at-IsFresh p dispatch_cancelled s (cancelled_at other p s) refl refl
                    way.fresh;
              at = value_at-remove id other s.dispatch_futures differ ∙ way.at;
              waits = still;
            })
            | inr over ↦ inr (record {
              fresh =
                  settle_at-IsFresh p dispatch_cancelled s (cancelled_at other p s) refl refl
                    way.fresh;
              holds = over;
            })
          ]
        ]

cancel_dispatch-IsOver :
    (id place : ℕ) (s : Supervisor)
    → IsUnderWay id place s
    → Kept (IsOver place) (cancel_dispatch id s)
unfolding cancel_dispatch
cancel_dispatch-IsOver id place s way =
    subst
      (λ found.
        Kept (IsOver place)
          (elim found as (λ _. Supervisor) [ none ↦ s | some p ↦ cancelled_at id p s ]))
      (sym way.at)
      (record {
        fresh =
            settle_at-IsFresh place dispatch_cancelled s (cancelled_at id place s) refl refl
              way.fresh;
        holds = settle_at-pending place dispatch_cancelled s.heap way.waits;
      })

cancel_dispatches-IsOver :
    (entries : List (ℕ × ℕ)) (run id place : ℕ) (s : Supervisor)
    → any (λ e. e.0 == run && e.1 == id) entries ≡ true
    → IsUnderWay id place s
    → Kept (IsOver place) (cancel_dispatches entries run s)
unfolding cancel_dispatches any
cancel_dispatches-IsOver [] run id place s listed way = ground (arith, listed)
cancel_dispatches-IsOver ((r, i) ∷ rest) run id place s listed way = elim (Bool-cases (r == run)) [
  | inr other ↦
      subst
        (λ b.
          Kept (IsOver place) (cancel_dispatches rest run (if b then cancel_dispatch i s else s)))
        (sym other)
        (cancel_dispatches-IsOver rest run id place s (ground (arith, listed, other)) way)
  | inl same ↦
      subst
        (λ b.
          Kept (IsOver place) (cancel_dispatches rest run (if b then cancel_dispatch i s else s)))
        (sym same)
        (elim (Bool-cases (i == id)) [
          | inl this ↦ cancel_dispatches-Kept-IsOver rest run place (cancel_dispatch i s) (
              subst (λ j. Kept (IsOver place) (cancel_dispatch j s)) (sym ((==_iff i id).0 this))
                (cancel_dispatch-IsOver id place s way))
          | inr differ ↦ elim (cancel_dispatch-IsUnderWay id i place s differ way) [
            | inl still ↦
                cancel_dispatches-IsOver rest run id place (cancel_dispatch i s)
                  (ground (arith, listed, differ)) still
            | inr over ↦ cancel_dispatches-Kept-IsOver rest run place (cancel_dispatch i s) over
          ]
        ])
]

await_end-cancelled :
    (id place : ℕ) (s : Supervisor)
    → value_at place s.heap ≡ some dispatch_cancelled
    → outcome (await_end id place s) ≡ some dispatch_cancelled
unfolding await_end
await_end-cancelled id place s h = ground (arith, h)

purge_signals_for_run-IsOver :
    (run id place : ℕ) (s : Supervisor)
    → any (λ e. e.0 == run && e.1 == id) s.dispatches_by_run ≡ true
    → IsUnderWay id place s
    → Kept (IsOver place) (purge_signals_for_run run s)
unfolding purge_signals_for_run
purge_signals_for_run-IsOver run id place s listed way =
    let over =
      cancel_dispatches-IsOver s.dispatches_by_run run id place _ listed
        (record { fresh = record { at = way.fresh.at }; at = way.at; waits = way.waits }) in
    record { fresh = record { at = over.fresh.at }; holds = over.holds }

-- After any calls, let a dispatch of a run be registered with a pending future. Then once the run has ended and is
-- purged, and whatever calls come after, in any order, deliveries for that dispatch among them, the wait for that
-- future ends with the cancellation: it neither hangs nor gets an envelope.
pub purge_signals_for_run-first :
    (before after : List Op) (run id place : ℕ)
    → any (λ e. e.0 == run && e.1 == id) (apply_ops before idle_supervisor).dispatches_by_run ≡ true
    → value_at id (apply_ops before idle_supervisor).dispatch_futures ≡ some place
    → value_at place (apply_ops before idle_supervisor).heap ≡ some pending
    → outcome (
        await_end id place
          (apply_ops after (purge_signals_for_run run (apply_ops before idle_supervisor))))
      ≡ some dispatch_cancelled
purge_signals_for_run-first before after run id place listed at waits =
    let s = apply_ops before idle_supervisor in
    let over =
      purge_signals_for_run-IsOver run id place s listed
        (record { fresh = apply_ops-IsFresh before; at = at; waits = waits }) in
    await_end-cancelled id place (apply_ops after (purge_signals_for_run run s)) (
      value_at-apply_ops place dispatch_cancelled after (purge_signals_for_run run s) refl
        over.fresh over.holds)

-- ===== src/Supervisor/State.antt =====
-- src/app/modules/ai/supervisor.py: the futures of dispatches and the buffers of signals. A future is an
-- object that its waiter keeps when the registry drops it, so that futures live on a heap and the
-- registry holds their places. asyncio's tasks and events are not modelled: a wait is a start and an
-- end, and is not itself cancelled.
use carestechs_agent_orchest.Prelude.{
  ℕ, suc, String, Bool, ◌&&◌, Option, none, some, is_some, List, [], ◌∷◌, ◌==◌, str_eq, find,
  remove, if◌then◌else◌,
}
use carestechs_agent_orchest.Json.Value.{Fields, end}
use carestechs_agent_orchest.Runtime.State.{DispatchEnvelope}

pub data Future : Type 0 where
  pending : Future
  resolved : DispatchEnvelope → Future
  dispatch_cancelled : Future

-- `(run_id, name, task_id)`
pub record SignalKey : Type 0 where
  pub run : ℕ
  pub name : String
  pub task : String

pub record Supervisor : Type 0 where
  pub heap : List (ℕ × Future)
  pub next_place : ℕ
  pub dispatch_futures : List (ℕ × ℕ)
  pub dispatches_by_run : List (ℕ × ℕ)
  pub signal_buffers : List (SignalKey × Fields)

abbrev pub same_signal : SignalKey → SignalKey → Bool
same_signal a b = a.run == b.run && str_eq a.name b.name && str_eq a.task b.task

-- A dict whose keys are numbers.
unfoldable pub value_at {ℓ} : {A : Type ℓ} → ℕ → List (ℕ × A) → Option A
value_at key [] = none
value_at key ((k, v) ∷ rest) = if k == key then some v else value_at key rest

-- `future.set_result`, `future.set_exception`, where the future is not done.
abbrev pub settle : Future → Future → Future
settle f pending = f
settle f done = done

unfoldable pub settle_at : ℕ → Future → List (ℕ × Future) → List (ℕ × Future)
settle_at place f [] = []
settle_at place f ((k, g) ∷ rest) =
    (k, if k == place then settle f g else g) ∷ settle_at place f rest

-- A new future for a dispatch.
abbrev pub with_future : ℕ → Supervisor → Supervisor
with_future id s = record s {
  heap = (s.next_place, pending) ∷ s.heap;
  next_place = suc s.next_place;
  dispatch_futures = (id, s.next_place) ∷ s.dispatch_futures;
}

unfoldable pub register_dispatch : ℕ → ℕ → Supervisor → Supervisor
unfolding value_at
register_dispatch run id s =
    if is_some (value_at id s.dispatch_futures)
    then s
    else record (with_future id s) { dispatches_by_run = (run, id) ∷ s.dispatches_by_run }

unfoldable pub deliver_dispatch : ℕ → DispatchEnvelope → Supervisor → Supervisor
unfolding value_at settle_at
deliver_dispatch id e s = elim (value_at id s.dispatch_futures) [
  | none ↦ s
  | some place ↦ record s { heap = settle_at place (resolved e) s.heap }
]

-- `await_dispatch` up to its wait: the future that it waits for.
unfoldable pub await_start : ℕ → Supervisor → ℕ × Supervisor
unfolding value_at
await_start id s = elim (value_at id s.dispatch_futures) [
  | some place ↦ (place, s)
  | none ↦ (s.next_place, with_future id s)
]

-- The registry forgets the dispatch.
unfoldable pub forget : ℕ → Supervisor → Supervisor
unfolding remove
forget id s = record s {
  dispatch_futures = remove (λ e. e.0 == id) s.dispatch_futures;
  dispatches_by_run = remove (λ e. e.1 == id) s.dispatches_by_run;
}

-- `await_dispatch` from its wait on: none while the future is pending.
unfoldable pub await_end : ℕ → ℕ → Supervisor → Option (Future × Supervisor)
unfolding value_at forget
await_end id place s = elim (value_at place s.heap) [
  | none ↦ none
  | some pending ↦ none
  | some (resolved e) ↦ some (resolved e, forget id s)
  | some dispatch_cancelled ↦ some (dispatch_cancelled, forget id s)
]

-- One dispatch of a run that has ended: its future leaves the registry, and raises if it is pending.
unfoldable pub cancel_dispatch : ℕ → Supervisor → Supervisor
unfolding value_at settle_at remove
cancel_dispatch id s = elim (value_at id s.dispatch_futures) [
  | none ↦ s
  | some place ↦ record s {
    heap = settle_at place dispatch_cancelled s.heap;
    dispatch_futures = remove (λ e. e.0 == id) s.dispatch_futures;
  }
]

unfoldable pub cancel_dispatches : List (ℕ × ℕ) → ℕ → Supervisor → Supervisor
unfolding cancel_dispatch
cancel_dispatches [] run s = s
cancel_dispatches ((r, id) ∷ rest) run s =
    cancel_dispatches rest run (if r == run then cancel_dispatch id s else s)

-- `_purge_signals_for_run`; a waiter for a signal is woken, which its end sees as an empty payload.
unfoldable pub purge_signals_for_run : ℕ → Supervisor → Supervisor
unfolding remove cancel_dispatches
purge_signals_for_run run s =
    let purged = record s { signal_buffers = remove (λ b. (b.0).run == run) s.signal_buffers } in
    let cancelled = cancel_dispatches s.dispatches_by_run run purged in
    record cancelled { dispatches_by_run = remove (λ e. e.0 == run) cancelled.dispatches_by_run }

unfoldable pub deliver_signal : SignalKey → Fields → Supervisor → Supervisor
unfolding remove
deliver_signal key payload s = record s {
  signal_buffers = (key, payload) ∷ remove (λ b. same_signal b.0 key) s.signal_buffers;
}

-- `self._signal_buffers.pop(key, default)`
unfoldable pub take_signal : SignalKey → Supervisor → Option Fields × Supervisor
unfolding find remove
take_signal key s = (
  elim (find (λ b. same_signal b.0 key) s.signal_buffers) [ none ↦ none | some b ↦ some b.1 ],
  record s { signal_buffers = remove (λ b. same_signal b.0 key) s.signal_buffers },
)

-- `await_signal`, once it is woken or where the payload is there at once.
unfoldable pub await_signal_end : SignalKey → Supervisor → Fields × Supervisor
unfolding take_signal
await_signal_end key s =
    let taken = take_signal key s in (elim taken.0 [ none ↦ end | some payload ↦ payload ], taken.1)

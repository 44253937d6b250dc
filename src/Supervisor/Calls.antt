-- ===== src/Supervisor/Calls.antt =====
-- Any sequence of the supervisor's calls on futures and signals (modules/ai/supervisor.py).
use carestechs_agent_orchest.Prelude.{ℕ, List, [], ◌∷◌, Option, none, some}
use carestechs_agent_orchest.Json.Value.{Fields}
use carestechs_agent_orchest.Runtime.State.{DispatchEnvelope}
use carestechs_agent_orchest.Supervisor.State.{
  Future, SignalKey, Supervisor, register_dispatch, deliver_dispatch, await_start, await_end,
  purge_signals_for_run, deliver_signal, take_signal,
}

-- The calls of the supervisor that touch futures or signals.
pub data Op : Type 0 where
  register : ℕ → ℕ → Op
  deliver : ℕ → DispatchEnvelope → Op
  start : ℕ → Op
  finish : ℕ → ℕ → Op
  purge : ℕ → Op
  signal : SignalKey → Fields → Op
  take : SignalKey → Op

abbrev pub after_end : Supervisor → Option (Future × Supervisor) → Supervisor
after_end s none = s
after_end s (some (f, s')) = s'

unfoldable pub apply_op : Op → Supervisor → Supervisor
unfolding register_dispatch deliver_dispatch await_start await_end purge_signals_for_run
    deliver_signal take_signal
apply_op (register run id) s = register_dispatch run id s
apply_op (deliver id e) s = deliver_dispatch id e s
apply_op (start id) s = (await_start id s).1
apply_op (finish id place) s = after_end s (await_end id place s)
apply_op (purge run) s = purge_signals_for_run run s
apply_op (signal key payload) s = deliver_signal key payload s
apply_op (take key) s = (take_signal key s).1

unfoldable pub apply_ops : List Op → Supervisor → Supervisor
unfolding apply_op
apply_ops [] s = s
apply_ops (op ∷ rest) s = apply_ops rest (apply_op op s)

-- A supervisor that no call has reached.
abbrev pub idle_supervisor : Supervisor
idle_supervisor = record {
  heap = [];
  next_place = 0;
  dispatch_futures = [];
  dispatches_by_run = [];
  signal_buffers = [];
}

abbrev pub outcome : Option (Future × Supervisor) → Option Future
outcome none = none
outcome (some (f, s)) = some f

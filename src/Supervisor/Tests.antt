-- ===== src/Supervisor/Tests.antt =====
-- A dispatch is delivered twice and its run is purged, before and after its waiter starts to wait.
use carestechs_agent_orchest.Prelude.{any, none, some, List, [], ◌∷◌, ◌≡◌, refl}
use carestechs_agent_orchest.Enums.Runtime.{DispatchState, DispatchMode, DispatchOutcome}
use carestechs_agent_orchest.Json.Value.{text, Fields, end, field}
use carestechs_agent_orchest.Runtime.State.{DispatchEnvelope}
use carestechs_agent_orchest.Supervisor.State.{
  resolved, dispatch_cancelled, SignalKey, value_at, deliver_dispatch, await_end, await_signal_end,
  take_signal, deliver_signal, purge_signals_for_run,
}
use carestechs_agent_orchest.Supervisor.Calls.{
  Op, register, deliver, start, finish, purge, apply_ops, idle_supervisor, outcome,
}
use carestechs_agent_orchest.Supervisor.Futures.{deliver_dispatch-first}
use carestechs_agent_orchest.Supervisor.Ended.{purge_signals_for_run-first}

abbrev envelope_of : DispatchOutcome → DispatchEnvelope
envelope_of result_of = record {
  mode = DispatchMode.human;
  state = DispatchState.completed;
  intake = end;
  result = none;
  outcome = some result_of;
  detail = none;
  started_at = 1;
  finished_at = some 2;
  correlation_id = none;
  transition_key = none;
}

-- Run 7 has registered the dispatch 5 and run 8 the dispatch 6, which has ended.
abbrev before : List Op
before =
    register 8 6
    ∷ deliver 6 (envelope_of DispatchOutcome.succeeded)
    ∷ register 7 5
    ∷ finish 6 0
    ∷ []

abbrev after : List Op
after = start 5 ∷ deliver 5 (envelope_of DispatchOutcome.error) ∷ purge 7 ∷ register 7 5 ∷ []

deliver_dispatch-first_example :
    outcome (
      await_end 5 1 (
        apply_ops after (
          deliver_dispatch 5
            (envelope_of DispatchOutcome.succeeded)
            (apply_ops before idle_supervisor))))
    ≡ some (resolved (envelope_of DispatchOutcome.succeeded))
unfolding apply_ops value_at
deliver_dispatch-first_example =
    deliver_dispatch-first before after 5 1 (envelope_of DispatchOutcome.succeeded) refl refl

purge_signals_for_run-first_example :
    outcome
      (await_end 5 1 (apply_ops after (purge_signals_for_run 7 (apply_ops before idle_supervisor))))
    ≡ some dispatch_cancelled
unfolding apply_ops value_at any
purge_signals_for_run-first_example = purge_signals_for_run-first before after 7 5 1 refl refl refl

abbrev approved : SignalKey
approved = record { run = 7; name = "implementation-complete"; task = "T-001" }

abbrev commit_sha : Fields
commit_sha = field "commit_sha" (text "abc") end

-- A signal that comes before its wait is kept for it, and is given out once.
preloaded :
    (await_signal_end approved (deliver_signal approved commit_sha idle_supervisor)).0 ≡ commit_sha
unfolding await_signal_end deliver_signal
preloaded = refl

given_once :
    (take_signal approved
      (await_signal_end approved (deliver_signal approved commit_sha idle_supervisor)).1).0
    ≡ none
unfolding await_signal_end deliver_signal
given_once = refl

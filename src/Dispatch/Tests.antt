-- ===== src/Dispatch/Tests.antt =====
-- A dispatch from its insertion to its end.
use carestechs_agent_orchest.Prelude.{◌≡◌, refl, none, some, List, [], ◌∷◌, arith}
use carestechs_agent_orchest.Enums.Runtime.{DispatchState, DispatchMode, DispatchOutcome}
use carestechs_agent_orchest.Json.Value.{text, end, field}
use carestechs_agent_orchest.Dispatch.Row.{Dispatch}
use carestechs_agent_orchest.Dispatch.Machine.{
  Mark, apply_all, is_ended, outcome_of, was_sent, IsCoherent, apply_all-ended,
  apply_all-IsCoherent,
}

abbrev inserted : Dispatch
inserted = record {
  dispatch_id = 1;
  step_id = 2;
  run_id = 3;
  executor_ref = "engine:task";
  mode = DispatchMode.engine;
  state = DispatchState.pending;
  intake = field "correlation_id" (text "id") end;
  result = none;
  outcome = none;
  detail = none;
  started_at = 4;
  dispatched_at = none;
  finished_at = none;
}

abbrev failed : Dispatch
failed = record inserted {
  state = DispatchState.failed;
  outcome = some DispatchOutcome.error;
  dispatched_at = some 5;
  finished_at = some 6;
}

abbrev calls : List Mark
calls = Mark.dispatched 5 ∷ Mark.failed 6 none none ∷ Mark.completed 7 none none ∷ []

inserted-IsCoherent : IsCoherent inserted
unfolding is_ended outcome_of was_sent
inserted-IsCoherent = record {
  outcome = refl;
  finished = refl;
  sent = ground arith;
  no_result = λ h. refl;
}

-- The late completion raises.
run-calls : apply_all calls inserted ≡ failed
unfolding apply_all
run-calls = refl

apply_all-ended_example :
    apply_all (Mark.completed 7 none none ∷ Mark.cancelled 8 none ∷ []) failed ≡ failed
unfolding is_ended
apply_all-ended_example =
    apply_all-ended (Mark.completed 7 none none ∷ Mark.cancelled 8 none ∷ []) failed refl

apply_all-IsCoherent_example : IsCoherent (apply_all calls inserted)
apply_all-IsCoherent_example = apply_all-IsCoherent calls inserted inserted-IsCoherent

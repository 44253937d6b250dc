-- ===== src/Dispatch/Row.antt =====
-- src/app/modules/ai/models.py: the row of one executor invocation and its state machine.
use carestechs_agent_orchest.Prelude.{
  ℕ, String, Bool, Option, some, List, ◌∷◌, [], any, ◌&&◌, Result, ok, err, illegal_transition,
  if◌then◌else◌,
}
use carestechs_agent_orchest.Enums.Runtime.{
  DispatchState, DispatchMode, DispatchOutcome, same_dispatch_state,
}
use carestechs_agent_orchest.Json.Value.{Fields}

pub record Dispatch : Type 0 where
  pub dispatch_id : ℕ
  pub step_id : ℕ
  pub run_id : ℕ
  pub executor_ref : String
  pub mode : DispatchMode
  pub state : DispatchState
  pub intake : Fields
  pub result : Option Fields
  pub outcome : Option DispatchOutcome
  pub detail : Option String
  pub started_at : ℕ
  pub dispatched_at : Option ℕ
  pub finished_at : Option ℕ

-- `_DISPATCH_TRANSITIONS`
unfoldable pub dispatch_transitions : List (DispatchState × DispatchState)
dispatch_transitions =
    (DispatchState.pending, DispatchState.dispatched)
    ∷ (DispatchState.dispatched, DispatchState.completed)
    ∷ (DispatchState.dispatched, DispatchState.failed)
    ∷ (DispatchState.dispatched, DispatchState.cancelled)
    ∷ (DispatchState.pending, DispatchState.cancelled)
    ∷ []

-- `(self.state, target) in _DISPATCH_TRANSITIONS`
unfoldable pub allows : DispatchState → DispatchState → Bool
unfolding dispatch_transitions any
allows from to =
    any (λ e. same_dispatch_state e.0 from && same_dispatch_state e.1 to) dispatch_transitions

-- `_transition`
unfoldable pub transition : DispatchState → Dispatch → Result Dispatch
unfolding allows
transition target d =
    if allows d.state target then ok (record d { state = target }) else err illegal_transition

unfoldable pub mark_dispatched : ℕ → Dispatch → Result Dispatch
unfolding transition
mark_dispatched at d = elim (transition DispatchState.dispatched d) [
  | err e ↦ err e
  | ok d ↦ ok (record d { dispatched_at = some at })
]

unfoldable pub mark_completed : ℕ → Option Fields → Option String → Dispatch → Result Dispatch
unfolding transition
mark_completed at result detail d = elim (transition DispatchState.completed d) [
  | err e ↦ err e
  | ok d ↦ ok (record d {
    outcome = some DispatchOutcome.succeeded;
    result = result;
    detail = detail;
    finished_at = some at;
  })
]

unfoldable pub mark_failed : ℕ → Option Fields → Option String → Dispatch → Result Dispatch
unfolding transition
mark_failed at result detail d = elim (transition DispatchState.failed d) [
  | err e ↦ err e
  | ok d ↦ ok (record d {
    outcome = some DispatchOutcome.error;
    result = result;
    detail = detail;
    finished_at = some at;
  })
]

unfoldable pub mark_cancelled : ℕ → Option String → Dispatch → Result Dispatch
unfolding transition
mark_cancelled at detail d = elim (transition DispatchState.cancelled d) [
  | err e ↦ err e
  | ok d ↦ ok (record d {
    outcome = some DispatchOutcome.cancelled;
    detail = detail;
    finished_at = some at;
  })
]

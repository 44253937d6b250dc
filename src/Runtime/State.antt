-- ===== src/Runtime/State.antt =====
-- src/app/modules/ai/models.py and schemas.py: the rows of one run that its loop reads and writes.
use carestechs_agent_orchest.Prelude.{ℕ, String, Option, List, Bool, ◌==◌, ◌||◌}
use carestechs_agent_orchest.Enums.Runtime.{
  RunStatus, same_run_status, StepStatus, StopReason, DispatchState, DispatchMode, DispatchOutcome,
}
use carestechs_agent_orchest.Json.Value.{Fields}
use carestechs_agent_orchest.Dispatch.Row.{Dispatch}

-- `Run`, but for the columns that are written once and not read here.
pub record Run : Type 0 where
  pub intake : Fields
  pub status : RunStatus
  pub stop_reason : Option StopReason
  pub final_state : Option Fields
  pub ended_at : Option ℕ

-- `Step`, but for its run, the engine's run and the error, which the loop does not write.
pub record Step : Type 0 where
  pub id : ℕ
  pub step_number : ℕ
  pub node_name : String
  pub node_inputs : Fields
  pub status : StepStatus
  pub node_result : Option Fields
  pub dispatched_at : Option ℕ
  pub completed_at : Option ℕ

-- `DispatchEnvelope`, but for the ids of its rows and `engine_run_id`, which are copied unchanged.
pub record DispatchEnvelope : Type 0 where
  pub mode : DispatchMode
  pub state : DispatchState
  pub intake : Fields
  pub result : Option Fields
  pub outcome : Option DispatchOutcome
  pub detail : Option String
  pub started_at : ℕ
  pub finished_at : Option ℕ
  pub correlation_id : Option String
  pub transition_key : Option String

-- The rows of the run: its memory's data, its steps and its dispatches, the newest first.
pub record World : Type 0 where
  pub run : Option Run
  pub memory : Option Fields
  pub steps : List Step
  pub dispatches : List Dispatch

-- `RunStatus(...) in (COMPLETED, FAILED, CANCELLED)`
abbrev pub is_over : RunStatus → Bool
is_over status =
    same_run_status status RunStatus.completed
    || same_run_status status RunStatus.failed
    || same_run_status status RunStatus.cancelled

abbrev pub is_step : ℕ → Step → Bool
is_step id s = s.id == id

abbrev pub is_dispatch : ℕ → Dispatch → Bool
is_dispatch id d = d.dispatch_id == id

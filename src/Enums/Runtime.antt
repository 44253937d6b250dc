-- ===== src/Enums/Runtime.antt =====
-- src/app/modules/ai/enums.py: the enums of runs, steps and dispatches.
use carestechs_agent_orchest.Prelude.{ℕ, String, ◌≡◌, ◌↔◌, Bool, true, arith, ◌==◌}

-- `RunStatus`
pub data RunStatus : Type 0 where
  pending running paused completed failed cancelled : RunStatus

-- `RunStatus.value`: the text that the columns hold.
unfoldable pub run_status_value : RunStatus → String
run_status_value RunStatus.pending = "pending"
run_status_value RunStatus.running = "running"
run_status_value RunStatus.paused = "paused"
run_status_value RunStatus.completed = "completed"
run_status_value RunStatus.failed = "failed"
run_status_value RunStatus.cancelled = "cancelled"

-- The position in the enum, for comparisons.
abbrev pub run_status_rank : RunStatus → ℕ
run_status_rank RunStatus.pending = 0
run_status_rank RunStatus.running = 1
run_status_rank RunStatus.paused = 2
run_status_rank RunStatus.completed = 3
run_status_rank RunStatus.failed = 4
run_status_rank RunStatus.cancelled = 5

-- `a == b` on the enum.
abbrev pub same_run_status : RunStatus → RunStatus → Bool
same_run_status a b = run_status_rank a == run_status_rank b

pub same_run_status_iff : (a b : RunStatus) → (same_run_status a b ≡ true) ↔ (a ≡ b)
same_run_status_iff a b = ground arith

-- `StepStatus`
pub data StepStatus : Type 0 where
  pending dispatched in_progress completed failed : StepStatus

-- `StepStatus.value`: the text that the columns hold.
unfoldable pub step_status_value : StepStatus → String
step_status_value StepStatus.pending = "pending"
step_status_value StepStatus.dispatched = "dispatched"
step_status_value StepStatus.in_progress = "in_progress"
step_status_value StepStatus.completed = "completed"
step_status_value StepStatus.failed = "failed"

-- `DispatchState`
pub data DispatchState : Type 0 where
  pending dispatched completed failed cancelled : DispatchState

-- `DispatchState.value`: the text that the columns hold.
unfoldable pub dispatch_state_value : DispatchState → String
dispatch_state_value DispatchState.pending = "pending"
dispatch_state_value DispatchState.dispatched = "dispatched"
dispatch_state_value DispatchState.completed = "completed"
dispatch_state_value DispatchState.failed = "failed"
dispatch_state_value DispatchState.cancelled = "cancelled"

-- The position in the enum, for comparisons.
abbrev pub dispatch_state_rank : DispatchState → ℕ
dispatch_state_rank DispatchState.pending = 0
dispatch_state_rank DispatchState.dispatched = 1
dispatch_state_rank DispatchState.completed = 2
dispatch_state_rank DispatchState.failed = 3
dispatch_state_rank DispatchState.cancelled = 4

-- `a == b` on the enum.
abbrev pub same_dispatch_state : DispatchState → DispatchState → Bool
same_dispatch_state a b = dispatch_state_rank a == dispatch_state_rank b

pub same_dispatch_state_iff : (a b : DispatchState) → (same_dispatch_state a b ≡ true) ↔ (a ≡ b)
same_dispatch_state_iff a b = ground arith

-- `DispatchMode`
pub data DispatchMode : Type 0 where
  local remote human engine : DispatchMode

-- `DispatchMode.value`: the text that the columns hold.
unfoldable pub dispatch_mode_value : DispatchMode → String
dispatch_mode_value DispatchMode.local = "local"
dispatch_mode_value DispatchMode.remote = "remote"
dispatch_mode_value DispatchMode.human = "human"
dispatch_mode_value DispatchMode.engine = "engine"

-- The position in the enum, for comparisons.
abbrev pub dispatch_mode_rank : DispatchMode → ℕ
dispatch_mode_rank DispatchMode.local = 0
dispatch_mode_rank DispatchMode.remote = 1
dispatch_mode_rank DispatchMode.human = 2
dispatch_mode_rank DispatchMode.engine = 3

-- `a == b` on the enum.
abbrev pub same_dispatch_mode : DispatchMode → DispatchMode → Bool
same_dispatch_mode a b = dispatch_mode_rank a == dispatch_mode_rank b

pub same_dispatch_mode_iff : (a b : DispatchMode) → (same_dispatch_mode a b ≡ true) ↔ (a ≡ b)
same_dispatch_mode_iff a b = ground arith

-- `DispatchOutcome`
pub data DispatchOutcome : Type 0 where
  succeeded error cancelled : DispatchOutcome

-- `DispatchOutcome.value`: the text that the columns hold.
unfoldable pub dispatch_outcome_value : DispatchOutcome → String
dispatch_outcome_value DispatchOutcome.succeeded = "ok"
dispatch_outcome_value DispatchOutcome.error = "error"
dispatch_outcome_value DispatchOutcome.cancelled = "cancelled"

-- The position in the enum, for comparisons.
abbrev pub dispatch_outcome_rank : DispatchOutcome → ℕ
dispatch_outcome_rank DispatchOutcome.succeeded = 0
dispatch_outcome_rank DispatchOutcome.error = 1
dispatch_outcome_rank DispatchOutcome.cancelled = 2

-- `a == b` on the enum.
abbrev pub same_dispatch_outcome : DispatchOutcome → DispatchOutcome → Bool
same_dispatch_outcome a b = dispatch_outcome_rank a == dispatch_outcome_rank b

pub same_dispatch_outcome_iff :
    (a b : DispatchOutcome) → (same_dispatch_outcome a b ≡ true) ↔ (a ≡ b)
same_dispatch_outcome_iff a b = ground arith

-- `StopReason`
pub data StopReason : Type 0 where
  done_node policy_terminated budget_exceeded error cancelled : StopReason

-- `StopReason.value`: the text that the columns hold.
unfoldable pub stop_reason_value : StopReason → String
stop_reason_value StopReason.done_node = "done_node"
stop_reason_value StopReason.policy_terminated = "policy_terminated"
stop_reason_value StopReason.budget_exceeded = "budget_exceeded"
stop_reason_value StopReason.error = "error"
stop_reason_value StopReason.cancelled = "cancelled"

-- The position in the enum, for comparisons.
abbrev pub stop_reason_rank : StopReason → ℕ
stop_reason_rank StopReason.done_node = 0
stop_reason_rank StopReason.policy_terminated = 1
stop_reason_rank StopReason.budget_exceeded = 2
stop_reason_rank StopReason.error = 3
stop_reason_rank StopReason.cancelled = 4

-- `a == b` on the enum.
abbrev pub same_stop_reason : StopReason → StopReason → Bool
same_stop_reason a b = stop_reason_rank a == stop_reason_rank b

pub same_stop_reason_iff : (a b : StopReason) → (same_stop_reason a b ≡ true) ↔ (a ≡ b)
same_stop_reason_iff a b = ground arith

-- ===== src/Runtime/Node.antt =====
-- src/app/modules/ai/runtime_deterministic.py: `_execute_node`. What it writes to the trace, where a
-- failure is logged and dropped, is left out.
use carestechs_agent_orchest.Prelude.{
  ℕ, String, Bool, false, ◌||◌, Option, none, some, List, [], ◌∷◌, update, str_eq, if◌then◌else◌,
}
use Prim.Native.String.{◌++◌}
use carestechs_agent_orchest.Enums.Runtime.{
  StepStatus, DispatchState, same_dispatch_state, DispatchMode, same_dispatch_mode, DispatchOutcome,
  same_dispatch_outcome,
}
use carestechs_agent_orchest.Json.Value.{text, Fields, end, field, set}
use carestechs_agent_orchest.Dispatch.Row.{Dispatch}
use carestechs_agent_orchest.Dispatch.Machine.{Mark, apply_all, is_ended}
use carestechs_agent_orchest.Executors.Registry.{Binding, resolve}
use carestechs_agent_orchest.Runtime.State.{Step, DispatchEnvelope, World, is_step, is_dispatch}
use carestechs_agent_orchest.Runtime.Turns.{Reply, Wait, Turn}
use carestechs_agent_orchest.Runtime.Status.{mark_running, mark_paused}
use carestechs_agent_orchest.Runtime.Bookkeeping.{data_of, write_state, patch_of}
use carestechs_agent_orchest.Runtime.Setup.{
  Setup, Exit, Heard, got, was_cancelled, wait_failed, nothing, happen, build_intake,
}

-- One call of `_execute_node`, with the binding and the intake that it has found.
pub record Call : Type 0 where
  pub setup : Setup
  pub turn : Turn
  pub number : ℕ
  pub node : String
  pub binding : Binding
  pub intake : Fields

-- The step and its dispatch, both pending.
unfoldable pub insert_rows : Call → World → World
insert_rows call w = record w {
  steps =
      record {
        id = call.turn.step_id;
        step_number = call.number;
        node_name = call.node;
        node_inputs = call.intake;
        status = StepStatus.pending;
        node_result = none;
        dispatched_at = none;
        completed_at = none;
      }
      ∷ w.steps;
  dispatches =
      record {
        dispatch_id = call.turn.dispatch_id;
        step_id = call.turn.step_id;
        run_id = call.setup.run_id;
        executor_ref = call.binding.name;
        mode = call.binding.mode;
        state = DispatchState.pending;
        intake = call.intake;
        result = none;
        outcome = none;
        detail = none;
        started_at = call.turn.started_at;
        dispatched_at = none;
        finished_at = none;
      }
      ∷ w.dispatches;
}

abbrev pub sent_step : Call → Step → Step
sent_step call s = record s {
  status = StepStatus.dispatched;
  dispatched_at = some call.turn.sent_at;
}

-- `mark_dispatched`, and the step's status.
unfoldable pub mark_sent : Call → World → World
unfolding update apply_all
mark_sent call w = record w {
  dispatches =
      update (is_dispatch call.turn.dispatch_id)
        (apply_all (Mark.dispatched call.turn.sent_at ∷ [])) w.dispatches;
  steps = update (is_step call.turn.step_id) (sent_step call) w.steps;
}

-- `_synthesize_failed`
abbrev pub synthesize_failed : Call → String → DispatchEnvelope
synthesize_failed call detail = record {
  mode = call.binding.mode;
  state = DispatchState.failed;
  intake = call.intake;
  result = none;
  outcome = some DispatchOutcome.error;
  detail = some detail;
  started_at = call.turn.started_at;
  finished_at = some call.turn.ended_at;
  correlation_id = none;
  transition_key = none;
}

-- The envelope's intake on top, but for the run and the node.
unfoldable pub merge_intake : Fields → Fields → Fields
unfolding set
merge_intake old end = old
merge_intake old (field k v rest) =
    merge_intake (if str_eq k "runId" || str_eq k "nodeName" then old else set k v old) rest

abbrev with_key : Option String → Fields → Fields
with_key none old = old
with_key (some key) old = set "transition_key" (text key) old

abbrev pub correlated : DispatchEnvelope → Option String → Dispatch → Dispatch
correlated e none d = d
correlated e (some id) d = record d {
  intake =
      merge_intake (with_key e.transition_key (set "correlation_id" (text id) d.intake)) e.intake;
}

-- An engine's correlation id is kept on the row, for the wake-up to find it.
unfoldable pub persist_correlation : Call → DispatchEnvelope → World → World
unfolding update merge_intake set
persist_correlation call e w =
    if same_dispatch_mode e.mode DispatchMode.engine
    then record w {
      dispatches =
          update (is_dispatch call.turn.dispatch_id) (correlated e e.correlation_id) w.dispatches;
    }
    else w

abbrev pub is_human : Call → Bool
is_human call = same_dispatch_mode call.binding.mode DispatchMode.human

abbrev pub timeout_for : Call → Option ℕ → Option ℕ
timeout_for call (some seconds) = some seconds
timeout_for call none = if is_human call then none else some call.setup.dispatch_timeout_seconds

abbrev pub resume : Call → World → World
resume call w = if is_human call then mark_running w else w

-- `_mark_dispatch_failed`
unfoldable pub mark_dispatch_failed : Call → String → World → World
unfolding update apply_all is_ended
mark_dispatch_failed call detail w = record w {
  dispatches =
      update (is_dispatch call.turn.dispatch_id)
        (λ d.
          if is_ended d.state
          then d
          else apply_all (Mark.failed call.turn.ended_at none (some detail) ∷ []) d)
        w.dispatches;
}

abbrev pub timeout_detail : Call → String
timeout_detail call =
    "timeout after "
    ++ call.setup.show_timeout (timeout_for call call.binding.timeout_seconds)
    ++ "s"

abbrev pub after_wait : Call → Wait → World → Heard × World
after_wait call (Wait.delivered e) w = (got e, resume call w)
after_wait call Wait.timed_out w = (
  got (synthesize_failed call (timeout_detail call)),
  resume call (mark_dispatch_failed call (timeout_detail call) w),
)
after_wait call Wait.dispatch_cancelled w = (wait_failed, resume call w)
after_wait call Wait.cancelled w = (was_cancelled, resume call w)
after_wait call Wait.never w = (nothing, w)

-- `wait_for` ends a wait that has a limit; without a limit the wait lasts as long as nothing comes.
abbrev pub limited : Option ℕ → Wait → Wait
limited (some seconds) Wait.never = Wait.timed_out
limited _ wait = wait

abbrev pub wait_of : Call → Wait
wait_of call =
    let limit = timeout_for call call.binding.timeout_seconds in
    limited limit (call.turn.waited limit)

abbrev pub pause : Call → World → World
pause call w = if is_human call then mark_paused w else w

-- The wait for the envelope; a run that waits for a person is paused meanwhile.
unfoldable pub await : Call → World → Heard × World
unfolding happen mark_paused mark_running mark_dispatch_failed
await call w =
    after_wait call (wait_of call) (happen call.turn.dispatch_id call.turn.meanwhile (pause call w))

abbrev pub after_reply : Call → Reply → World → Heard × World
after_reply call (Reply.returned e) w =
    if same_dispatch_state e.state DispatchState.dispatched
    then await call (persist_correlation call e w)
    else (got e, w)
after_reply call (Reply.threw why) w =
    (got (synthesize_failed call ("executor.dispatch raised: " ++ why)), w)
after_reply call Reply.cancelled w = (was_cancelled, w)
after_reply call Reply.never w = (nothing, w)

-- The call of the executor, and the wait where it has only sent the dispatch off.
unfoldable pub run_executor : Call → World → Heard × World
unfolding happen await persist_correlation
run_executor call w =
    after_reply call call.turn.reply (happen call.turn.dispatch_id call.turn.during w)

-- `_step_status_from`
abbrev pub step_status_from : DispatchEnvelope → StepStatus
step_status_from e =
    if same_dispatch_state e.state DispatchState.completed
    then StepStatus.completed
    else if same_dispatch_state e.state DispatchState.failed
    then StepStatus.failed
    else StepStatus.in_progress

abbrev pub is_outcome : DispatchOutcome → Option DispatchOutcome → Bool
is_outcome o none = false
is_outcome o (some p) = same_dispatch_outcome p o

abbrev last_mark : Call → DispatchEnvelope → Mark
last_mark call e =
    if is_outcome DispatchOutcome.succeeded e.outcome
    then Mark.completed call.turn.ended_at e.result e.detail
    else Mark.failed call.turn.ended_at e.result e.detail

-- The marks that a row still needs.
abbrev pub marks_left : Call → DispatchEnvelope → DispatchState → List Mark
marks_left call e DispatchState.pending = Mark.dispatched call.turn.ended_at ∷ last_mark call e ∷ []
marks_left call e DispatchState.dispatched = last_mark call e ∷ []
marks_left call e _ = []

abbrev pub ended_step : DispatchEnvelope → Step → Step
ended_step e s = record s {
  status = step_status_from e;
  node_result = e.result;
  dispatched_at = some e.started_at;
  completed_at = e.finished_at;
}

-- `_commit_terminal`
unfoldable pub commit_terminal : Call → DispatchEnvelope → World → World
unfolding update apply_all
commit_terminal call e w = record w {
  dispatches =
      update (is_dispatch call.turn.dispatch_id) (λ d. apply_all (marks_left call e d.state) d)
        w.dispatches;
  steps = update (is_step call.turn.step_id) (ended_step e) w.steps;
}

abbrev pub with_data : DispatchEnvelope → World → Option Fields → Exit × World
with_data e w none = (Exit.crashed, w)
with_data e w (some whole) = (
  if is_outcome DispatchOutcome.error e.outcome then Exit.crashed else Exit.done,
  record w { memory = some whole },
)

-- The rows' last writes, the memory's, and the failure of the executor.
unfoldable pub conclude : Call → Heard → World → Exit × World
unfolding commit_terminal write_state patch_of
conclude call was_cancelled w = (Exit.cancelled, w)
conclude call wait_failed w = (Exit.crashed, w)
conclude call nothing w = (Exit.hung, w)
conclude call (got e) w =
    let committed = commit_terminal call e w in
    with_data e committed (write_state call.node e.result (patch_of e.result) (data_of committed))

unfoldable pub execute_bound : Call → World → Exit × World
unfolding insert_rows mark_sent run_executor conclude
execute_bound call w =
    let heard = run_executor call (mark_sent call (insert_rows call w)) in
    conclude call heard.0 heard.1

module _ (setup : Setup) (turn : Turn) (number : ℕ) where
  abbrev pub call_of : String → Binding → Fields → Call
  call_of node binding intake = record {
    setup = setup;
    turn = turn;
    number = number;
    node = node;
    binding = binding;
    intake = intake;
  }

  abbrev pub with_intake : String → Binding → Option Fields → World → Exit × World
  with_intake node binding none w = (Exit.crashed, w)
  with_intake node binding (some intake) w = execute_bound (call_of node binding intake) w

  abbrev pub with_binding : String → Option Binding → World → Exit × World
  with_binding node none w = (Exit.crashed, w)
  with_binding node (some binding) w =
      with_intake node binding (build_intake setup node binding w) w

  -- `_execute_node`
  unfoldable pub execute_node : String → World → Exit × World
  unfolding resolve build_intake execute_bound
  execute_node node w = with_binding node (resolve (setup.agent_ref, node) setup.bindings) w

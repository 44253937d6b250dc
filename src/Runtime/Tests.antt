-- ===== src/Runtime/Tests.antt =====
-- A run through two nodes: one of a local executor, then one that waits for a person.
use carestechs_agent_orchest.Prelude.{
  ℕ, zero, suc, String, Bool, true, false, Option, none, some, [], ◌∷◌, all, ◌≡◌, refl, arith, ◌⊎◌,
  ◌<◌, if◌then◌else◌,
}
use mathlib.Core.Option
use carestechs_agent_orchest.Enums.Runtime.{
  RunStatus, StopReason, DispatchState, DispatchMode, DispatchOutcome,
}
use carestechs_agent_orchest.Flow.Plain.{plain}
use carestechs_agent_orchest.Json.Value.{
  text, array, nil, cons, Fields, end, field, lookup, is_truthy,
}
use carestechs_agent_orchest.Dispatch.Row.{Dispatch}
use carestechs_agent_orchest.Dispatch.Machine.{is_ended}
use carestechs_agent_orchest.Executors.Registry.{Binding}
use carestechs_agent_orchest.Flow.Resolver.{Declaration}
use carestechs_agent_orchest.Runtime.State.{Run, DispatchEnvelope, World}
use carestechs_agent_orchest.Runtime.Turns.{Event, Reply, Wait, Turn}
use carestechs_agent_orchest.Runtime.Bookkeeping.{Snapshot, read_state, write_state, apply_patch}
use carestechs_agent_orchest.Runtime.Kept.{result_kept, read_state-write_state}
use carestechs_agent_orchest.Runtime.Setup.{Setup, Exit}
use carestechs_agent_orchest.Runtime.Node.{Call, execute_node}
use carestechs_agent_orchest.Runtime.Loop.{loop, run_deterministic_loop}
use carestechs_agent_orchest.Runtime.Frames.{is_settled, log}
use carestechs_agent_orchest.Runtime.Hangs.{comes_back}
use carestechs_agent_orchest.Runtime.Ends.{run_deterministic_loop-returns, loop-settled}
use carestechs_agent_orchest.Runtime.Walk.{Walk, run_deterministic_loop-Walk}
use carestechs_agent_orchest.Runtime.Tended.{execute_node-ended}

abbrev flow : Declaration
flow = record {
  entry_node = "intake";
  terminal_nodes = "close_work_item" ∷ [];
  transitions =
      field "intake" (array (cons (text "load_work_item") nil))
        (field "load_work_item" (array (cons (text "close_work_item") nil)) end);
}

abbrev binding_of : String → DispatchMode → Binding
binding_of node mode = record {
  agent_ref = "agent";
  node_name = node;
  name = "executor";
  mode = mode;
  timeout_seconds = none;
  intake_builder = none;
}

abbrev setup : Setup
setup = record {
  run_id = 1;
  run_id_text = "r-1";
  agent_ref = "agent";
  declaration = flow;
  max_steps = 5;
  bindings =
      binding_of "load_work_item" DispatchMode.local
      ∷ binding_of "close_work_item" DispatchMode.human
      ∷ [];
  env = plain;
  dispatch_timeout_seconds = 60;
  show_timeout = λ _. "60.0";
}

abbrev envelope : DispatchState → Option DispatchOutcome → DispatchEnvelope
envelope state outcome = record {
  mode = DispatchMode.local;
  state = state;
  intake = end;
  result = some (field "verdict" (text "pass") end);
  outcome = outcome;
  detail = none;
  started_at = 10;
  finished_at = none;
  correlation_id = none;
  transition_key = none;
}

abbrev answered : DispatchEnvelope
answered = envelope DispatchState.completed (some DispatchOutcome.succeeded)

abbrev turn_of : ℕ → Reply → Turn
turn_of n reply = record {
  before = [];
  cancel_seen = false;
  step_id = n;
  dispatch_id = n;
  started_at = 10;
  sent_at = 11;
  during = [];
  reply = reply;
  meanwhile = Event.wrote "plans" (text "p") ∷ [];
  waited = λ _. Wait.delivered answered;
  ended_at = 12;
  crash_text = "";
}

abbrev turns : ℕ → Turn
turns zero = turn_of 1 (Reply.returned answered)
turns (suc n) = turn_of (suc (suc n)) (Reply.returned (envelope DispatchState.dispatched none))

abbrev started : World
started = record {
  run = some (record {
    intake = end;
    status = RunStatus.pending;
    stop_reason = none;
    final_state = none;
    ended_at = none;
  });
  memory = some end;
  steps = [];
  dispatches = [];
}

abbrev or_started : Option World → World
or_started none = started
or_started (some w) = w

abbrev is_completed : Option Run → Bool
is_completed none = false
is_completed (some run) = elim run.status [ RunStatus.completed ↦ true | _ ↦ false ]

-- The run goes through both nodes, and ends at the second, which is terminal.
run-started :
    log (or_started (run_deterministic_loop setup turns 6 started))
    ≡ (2, "close_work_item") ∷ (1, "load_work_item") ∷ []
unfolding run_deterministic_loop
run-started = refl

run-completed : is_completed (or_started (run_deterministic_loop setup turns 6 started)).run ≡ true
unfolding run_deterministic_loop
run-completed = refl

run_deterministic_loop-returns_example :
    ((w : World) × (run_deterministic_loop setup turns 6 started ≡ some w)
      × (is_settled w.run ≡ true))
    ⊎ ((i : ℕ) × (i < 5) × (comes_back (turns i) ≡ false))
run_deterministic_loop-returns_example =
    run_deterministic_loop-returns setup turns started (ground arith)

-- A person who never answers: the run stays paused, and the loop does not return.
abbrev unanswered : Turn
unanswered = record (turns 1) { waited = λ _. Wait.never }

hangs_for_a_person : (execute_node setup unanswered 1 "close_work_item" started).0 ≡ Exit.hung
unfolding execute_node
hangs_for_a_person = refl

run_deterministic_loop-Walk_example :
    (n : ℕ) × Walk setup n (or_started (run_deterministic_loop setup turns 6 started))
unfolding run_deterministic_loop
run_deterministic_loop-Walk_example =
    run_deterministic_loop-Walk setup turns 6 started
      (or_started (run_deterministic_loop setup turns 6 started)) refl refl refl

abbrev stopped : World
stopped = record started {
  run = some (record {
    intake = end;
    status = RunStatus.cancelled;
    stop_reason = some StopReason.cancelled;
    final_state = none;
    ended_at = some 9;
  });
}

loop-settled_example : (or_started (loop setup turns 6 0 stopped)).run ≡ stopped.run
unfolding loop
loop-settled_example =
    loop-settled setup turns 6 0 stopped (or_started (loop setup turns 6 0 stopped)) refl refl

execute_node-ended_example :
    all
      (λ d. is_ended d.state)
      (execute_node setup (turns 1) 1 "close_work_item" started).1.dispatches
    ≡ true
unfolding execute_node all
execute_node-ended_example =
    execute_node-ended setup (turns 1) 1 "close_work_item" started refl refl

abbrev row : Dispatch
row = record {
  dispatch_id = 1;
  step_id = 1;
  run_id = 1;
  executor_ref = "executor";
  mode = DispatchMode.human;
  state = DispatchState.dispatched;
  intake = end;
  result = none;
  outcome = none;
  detail = none;
  started_at = 10;
  dispatched_at = some 11;
  finished_at = none;
}

abbrev call : Call
call = record {
  setup = setup;
  turn = turns 1;
  number = 1;
  node = "close_work_item";
  binding = binding_of "close_work_item" DispatchMode.human;
  intake = end;
}

abbrev waiting : World
waiting = record started { dispatches = record row { dispatch_id = 2; step_id = 2 } ∷ [] }

abbrev patch : Fields
patch = field "plans" (text "p") (field "__feat009" (text "ignored") end)

abbrev or_end : Option Fields → Fields
or_end none = end
or_end (some fields) = fields

read_state-write_state_example :
    (s : Snapshot) × (read_state "intake" (or_end (write_state "load_work_item" none patch end))
      ≡ some s)
    × (s.current_node ≡ (if is_truthy (text "load_work_item") then "load_work_item" else "intake"))
    × (s.last_result ≡ result_kept none)
    × (lookup "plans" s.memory ≡ lookup "plans" (apply_patch patch end))
unfolding write_state
read_state-write_state_example =
    read_state-write_state "intake" "load_work_item" "plans" none patch end
      (or_end (write_state "load_work_item" none patch end)) refl refl

-- ===== src/Runtime/Loop.antt =====
-- src/app/modules/ai/runtime_deterministic.py: `run_deterministic_loop`. The loop itself may go on for
-- ever where the agent has no budget of steps, so that it has fuel, one unit for each iteration.
use carestechs_agent_orchest.Prelude.{
  ℕ, zero, suc, String, Bool, ◌&&◌, not, Option, none, some, leb, ◌==◌, if◌then◌else◌, str_eq,
}
use carestechs_agent_orchest.Enums.Runtime.{StopReason}
use carestechs_agent_orchest.Json.Value.{text, end, field, as_text}
use carestechs_agent_orchest.Flow.Resolver.{Decision, Resolved, resolved, raised, resolve_next}
use carestechs_agent_orchest.Runtime.State.{World}
use carestechs_agent_orchest.Runtime.Turns.{Turn}
use carestechs_agent_orchest.Runtime.Status.{mark_running, terminate}
use carestechs_agent_orchest.Runtime.Bookkeeping.{Snapshot, read_state, data_of}
use carestechs_agent_orchest.Runtime.Setup.{Setup, Exit, happen}
use carestechs_agent_orchest.Runtime.Node.{execute_node}

-- What one iteration comes to: the loop goes on, the run is ended and the loop returns, or the iteration
-- never ends.
pub data Iteration : Type 0 where
  goes_on : World → Iteration
  returns : World → Iteration
  hangs : World → Iteration

abbrev pub reason_for : String → StopReason
reason_for reason =
    if str_eq reason "done_node" then StopReason.done_node else StopReason.policy_terminated

module _ (setup : Setup) (turn : Turn) where
  -- `except Exception`: the text of the exception goes into the final state.
  abbrev pub crash : World → Iteration
  crash w =
      returns
        (terminate StopReason.error (field "crash" (text turn.crash_text) end) turn.ended_at w)

  abbrev pub stop : StopReason → World → Iteration
  stop reason w = returns (terminate reason end turn.ended_at w)

  abbrev pub after_node : Exit × World → Iteration
  after_node (Exit.done, w) = goes_on w
  after_node (Exit.cancelled, w) = stop StopReason.cancelled w
  after_node (Exit.crashed, w) = crash w
  after_node (Exit.hung, w) = hangs w

  -- A node that is no text has no binding.
  abbrev pub enter : ℕ → Option String → World → Iteration
  enter count none w = crash w
  enter count (some node) w = after_node (execute_node setup turn (suc count) node w)

  abbrev pub follow : ℕ → Resolved Decision → World → Iteration
  follow count (raised e) w = crash w
  follow count (resolved (Decision.terminal reason)) w = stop (reason_for reason) w
  follow count (resolved (Decision.next_node v)) w = enter count (as_text v) w

  abbrev pub decide : ℕ → Option Snapshot → World → Iteration
  decide count none w = crash w
  decide count (some s) w =
      follow count (resolve_next setup.env s.memory s.last_result setup.declaration s.current_node)
        w

  abbrev pub over_budget : ℕ → Bool
  over_budget count = not (setup.max_steps == 0) && leb setup.max_steps count

  -- One iteration, after `count` steps.
  unfoldable pub iterate : ℕ → World → Iteration
  unfolding happen terminate read_state resolve_next execute_node
  iterate count before =
      let w = happen turn.dispatch_id turn.before before in
      if turn.cancel_seen
      then stop StopReason.cancelled w
      else if over_budget count
      then stop StopReason.budget_exceeded w
      else decide count (read_state setup.declaration.entry_node (data_of w)) w

module _ (setup : Setup) (turns : ℕ → Turn) where
  -- none: the loop has not returned.
  unfoldable pub loop : ℕ → ℕ → World → Option World
  unfolding iterate
  loop zero count w = none
  loop (suc fuel) count w = elim (iterate setup (turns count) count w) [
    | returns w' ↦ some w'
    | goes_on w' ↦ loop fuel (suc count) w'
    | hangs w' ↦ none
  ]

  -- `run_deterministic_loop`
  unfoldable pub run_deterministic_loop : ℕ → World → Option World
  unfolding mark_running loop
  run_deterministic_loop fuel w = loop fuel 0 (mark_running w)

-- ===== src/Runtime/Status.antt =====
-- src/app/modules/ai/runtime_deterministic.py: the status of the run. A run that is over is left as
-- it is.
use carestechs_agent_orchest.Prelude.{ℕ, Option, none, some, ◌||◌, if◌then◌else◌}
use carestechs_agent_orchest.Enums.Runtime.{RunStatus, StopReason, same_stop_reason}
use carestechs_agent_orchest.Json.Value.{Json, text, Fields, end, merge, set, is_empty}
use carestechs_agent_orchest.Runtime.State.{Run, World, is_over}

-- A change of the run's row that is made only while the run is not over.
abbrev pub unless_over : (Run → Run) → Option Run → Option Run
unless_over change none = none
unless_over change (some run) = if is_over run.status then some run else some (change run)

unfoldable pub mark_running : World → World
mark_running w = record w {
  run = unless_over (λ run. record run { status = RunStatus.running }) w.run;
}

unfoldable pub mark_paused : World → World
mark_paused w = record w {
  run = unless_over (λ run. record run { status = RunStatus.paused }) w.run;
}

abbrev pub status_for : StopReason → RunStatus
status_for reason =
    if same_stop_reason reason StopReason.done_node
      || same_stop_reason reason StopReason.policy_terminated
    then RunStatus.completed
    else if same_stop_reason reason StopReason.cancelled
    then RunStatus.cancelled
    else RunStatus.failed

abbrev or_end : Option Fields → Fields
or_end none = end
or_end (some fields) = fields

-- `if final_state: existing.update(final_state)`
abbrev updated_state : Option Fields → Fields → Option Fields
updated_state existing more =
    if is_empty more then existing else some (merge (or_end existing) more)

-- `_terminate`, with what it adds to the final state.
unfoldable pub terminate : StopReason → Fields → ℕ → World → World
unfolding merge
terminate reason more now w = record w {
  run =
      unless_over
        (λ run. record run {
          status = status_for reason;
          stop_reason = some reason;
          final_state = updated_state run.final_state more;
          ended_at = some now;
        })
        w.run;
}

-- src/app/modules/ai/service.py, `cancel_run`: what it commits before it cancels the loop's task.
unfoldable pub cancel_run : Json → ℕ → World → World
unfolding set
cancel_run reason now w = record w {
  run =
      unless_over
        (λ run. record run {
          status = RunStatus.cancelled;
          stop_reason = some StopReason.cancelled;
          final_state = some (
              set "cancelled_via" (text "api")
                (set "cancel_reason" reason (or_end run.final_state)));
          ended_at = some now;
        })
        w.run;
}

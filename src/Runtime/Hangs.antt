-- ===== src/Runtime/Hangs.antt =====
-- An iteration never ends only where an executor never comes back, or a wait without a limit never ends.
use carestechs_agent_orchest.Prelude.{
  ℕ, suc, String, Bool, true, false, ◌&&◌, Option, none, some, ◌≡◌, refl, arith, if◌then◌else◌,
}
use carestechs_agent_orchest.Enums.Runtime.{DispatchState, same_dispatch_state}
use carestechs_agent_orchest.Json.Value.{Fields, as_text}
use carestechs_agent_orchest.Executors.Registry.{Binding, resolve}
use carestechs_agent_orchest.Flow.Resolver.{Decision, Resolved, resolved, raised}
use carestechs_agent_orchest.Runtime.State.{DispatchEnvelope, World}
use carestechs_agent_orchest.Runtime.Turns.{Reply, Wait, Turn}
use carestechs_agent_orchest.Runtime.Bookkeeping.{Snapshot, read_state, data_of}
use carestechs_agent_orchest.Runtime.Setup.{
  Setup, Exit, Heard, got, was_cancelled, wait_failed, nothing, happen, build_intake,
}
use carestechs_agent_orchest.Runtime.Node.{
  Call, insert_rows, mark_sent, persist_correlation, await, after_wait, wait_of, limited,
  timeout_for, after_reply, run_executor, commit_terminal, with_data, conclude, execute_bound,
  execute_node, call_of, with_intake, with_binding,
}
use carestechs_agent_orchest.Runtime.Loop.{
  Iteration, hangs, after_node, enter, follow, decide, over_budget, iterate,
}

abbrev ends : Wait → Bool
ends Wait.never = false
ends _ = true

abbrev answers : Reply → Bool
answers Reply.never = false
answers _ = true

-- The executor's call comes back, and so does a wait that has no limit.
abbrev pub comes_back : Turn → Bool
comes_back turn = answers turn.reply && ends (turn.waited none)

abbrev hears : Heard → Bool
hears nothing = false
hears _ = true

abbrev leaves : Exit → Bool
leaves Exit.hung = false
leaves _ = true

abbrev pub ends_iteration : Iteration → Bool
ends_iteration (hangs w) = false
ends_iteration _ = true

module _ (call : Call) (back : comes_back call.turn ≡ true) where
  limited-ends : (limit : Option ℕ) → ends (limited limit (call.turn.waited limit)) ≡ true
  limited-ends none = ground (arith, back)
  limited-ends (some seconds) = go (call.turn.waited (some seconds))
    where
      go : (wait : Wait) → ends (limited (some seconds) wait) ≡ true
      go (Wait.delivered e) = refl
      go Wait.timed_out = refl
      go Wait.dispatch_cancelled = refl
      go Wait.cancelled = refl
      go Wait.never = refl

  after_wait-hears :
      (wait : Wait) (w : World) → ends wait ≡ true → hears (after_wait call wait w).0 ≡ true
  after_wait-hears (Wait.delivered e) w h = refl
  after_wait-hears Wait.timed_out w h = refl
  after_wait-hears Wait.dispatch_cancelled w h = refl
  after_wait-hears Wait.cancelled w h = refl
  after_wait-hears Wait.never w h = h

  await-hears : (w : World) → hears (await call w).0 ≡ true
  unfolding await
  await-hears w =
      after_wait-hears (wait_of call) _
        (limited-ends (timeout_for call call.binding.timeout_seconds))

  either-hears :
      (b : Bool) (x y : Heard × World)
      → hears x.0 ≡ true
      → hears y.0 ≡ true
      → hears (if b then x else y).0 ≡ true
  either-hears true x y h k = h
  either-hears false x y h k = k

  after_reply-hears :
      (reply : Reply) (w : World) → answers reply ≡ true → hears (after_reply call reply w).0 ≡ true
  after_reply-hears (Reply.returned e) w h =
      either-hears (same_dispatch_state e.state DispatchState.dispatched)
        (await call (persist_correlation call e w)) (got e, w)
        (await-hears (persist_correlation call e w)) refl
  after_reply-hears (Reply.threw why) w h = refl
  after_reply-hears Reply.cancelled w h = refl
  after_reply-hears Reply.never w h = h

  run_executor-hears : (w : World) → hears (run_executor call w).0 ≡ true
  unfolding run_executor
  run_executor-hears w = after_reply-hears call.turn.reply _ (ground (arith, back))

  with_data-leaves :
      (e : DispatchEnvelope) (w : World) (o : Option Fields) → leaves (with_data e w o).0 ≡ true
  with_data-leaves e w none = refl
  with_data-leaves e w (some whole) = ground arith

  conclude-leaves :
      (heard : Heard) (w : World) → hears heard ≡ true → leaves (conclude call heard w).0 ≡ true
  unfolding conclude
  conclude-leaves was_cancelled w h = refl
  conclude-leaves wait_failed w h = refl
  conclude-leaves nothing w h = h
  conclude-leaves (got e) w h = with_data-leaves e (commit_terminal call e w) _

  execute_bound-leaves : (w : World) → leaves (execute_bound call w).0 ≡ true
  unfolding execute_bound
  execute_bound-leaves w =
      let heard = run_executor call (mark_sent call (insert_rows call w)) in
      conclude-leaves heard.0 heard.1 (run_executor-hears (mark_sent call (insert_rows call w)))

module _ (setup : Setup) (turn : Turn) (back : comes_back turn ≡ true) where
  with_intake-leaves :
      (number : ℕ) (node : String) (binding : Binding) (o : Option Fields) (w : World)
      → leaves (with_intake setup turn number node binding o w).0 ≡ true
  with_intake-leaves number node binding none w = refl
  with_intake-leaves number node binding (some intake) w =
      execute_bound-leaves (call_of setup turn number node binding intake) back w

  with_binding-leaves :
      (number : ℕ) (node : String) (o : Option Binding) (w : World)
      → leaves (with_binding setup turn number node o w).0 ≡ true
  with_binding-leaves number node none w = refl
  with_binding-leaves number node (some binding) w =
      with_intake-leaves number node binding (build_intake setup node binding w) w

  execute_node-leaves :
      (number : ℕ) (node : String) (w : World)
      → leaves (execute_node setup turn number node w).0 ≡ true
  unfolding execute_node
  execute_node-leaves number node w =
      with_binding-leaves number node (resolve (setup.agent_ref, node) setup.bindings) w

  after_node-ends :
      (r : Exit × World) → leaves r.0 ≡ true → ends_iteration (after_node setup turn r) ≡ true
  after_node-ends (Exit.done, w) h = refl
  after_node-ends (Exit.cancelled, w) h = refl
  after_node-ends (Exit.crashed, w) h = refl
  after_node-ends (Exit.hung, w) h = h

  enter-ends :
      (count : ℕ) (o : Option String) (w : World)
      → ends_iteration (enter setup turn count o w) ≡ true
  enter-ends count none w = refl
  enter-ends count (some node) w =
      after_node-ends (execute_node setup turn (suc count) node w)
        (execute_node-leaves (suc count) node w)

  follow-ends :
      (count : ℕ) (r : Resolved Decision) (w : World)
      → ends_iteration (follow setup turn count r w) ≡ true
  follow-ends count (raised e) w = refl
  follow-ends count (resolved (Decision.terminal reason)) w = refl
  follow-ends count (resolved (Decision.next_node v)) w = enter-ends count (as_text v) w

  decide-ends :
      (count : ℕ) (o : Option Snapshot) (w : World)
      → ends_iteration (decide setup turn count o w) ≡ true
  decide-ends count none w = refl
  decide-ends count (some s) w = follow-ends count _ w

  either-ends :
      (b : Bool) (i j : Iteration)
      → ends_iteration i ≡ true
      → ends_iteration j ≡ true
      → ends_iteration (if b then i else j) ≡ true
  either-ends true i j h k = h
  either-ends false i j h k = k

  pub iterate-ends : (count : ℕ) (w : World) → ends_iteration (iterate setup turn count w) ≡ true
  unfolding iterate
  iterate-ends count w =
      let later = happen turn.dispatch_id turn.before w in
      either-ends turn.cancel_seen _ _ refl (
        either-ends (over_budget setup turn count) _ _ refl
          (decide-ends count (read_state setup.declaration.entry_node (data_of later)) later))

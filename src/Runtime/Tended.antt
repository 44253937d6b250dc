-- ===== src/Runtime/Tended.antt =====
-- No dispatch is left open behind a node that ends normally.
use carestechs_agent_orchest.Prelude.{
  ℕ, String, Bool, true, false, Option, none, some, List, [], ◌∷◌, all, ==-refl, ◌≡◌, refl, ap, ◌∙◌,
  arith, if◌then◌else◌,
}
use carestechs_agent_orchest.Enums.Runtime.{
  DispatchState, same_dispatch_state, DispatchMode, same_dispatch_mode,
}
use carestechs_agent_orchest.Json.Value.{Fields}
use carestechs_agent_orchest.Dispatch.Row.{Dispatch}
use carestechs_agent_orchest.Dispatch.Machine.{Mark, apply_all, is_ended}
use carestechs_agent_orchest.Executors.Registry.{Binding, resolve}
use carestechs_agent_orchest.Runtime.State.{DispatchEnvelope, World}
use carestechs_agent_orchest.Runtime.Turns.{Event, Reply, Wait, Turn}
use carestechs_agent_orchest.Runtime.Status.{mark_running, mark_paused, cancel_run}
use carestechs_agent_orchest.Runtime.Bookkeeping.{is_private}
use carestechs_agent_orchest.Runtime.Setup.{
  Setup, Exit, Heard, got, was_cancelled, wait_failed, nothing, happen_one, happen, build_intake,
}
use carestechs_agent_orchest.Runtime.Node.{
  Call, insert_rows, mark_sent, persist_correlation, mark_dispatch_failed, await, wait_of,
  run_executor, commit_terminal, conclude, execute_bound, execute_node, with_intake, with_binding,
  call_of, after_wait, after_reply, with_data, pause, resume, is_human, correlated, timeout_detail,
}
use carestechs_agent_orchest.Runtime.Dispatches.{
  is_tended, Tended, update-Tended, apply_all-id, commit-ended,
}

Tended-if :
    {left right : World} (id : ℕ) (b : Bool)
    → Tended id left
    → Tended id right
    → Tended id (if b then left else right)
Tended-if id true l r = l
Tended-if id false l r = r

Tended-happen_one : (id : ℕ) (e : Event) (w : World) → Tended id w → Tended id (happen_one id e w)
unfolding happen_one cancel_run
Tended-happen_one id (Event.cancelled reason at) w t = record { at = t.at }
Tended-happen_one id (Event.marked m) w t = record {
  at = update-Tended id (apply_all (m ∷ [])) w.dispatches (apply_all-id (m ∷ [])) t.at;
}
Tended-happen_one id (Event.wrote key value) w t =
    Tended-if id (is_private key) t (record { at = t.at })

Tended-happen : (id : ℕ) (es : List Event) (w : World) → Tended id w → Tended id (happen id es w)
unfolding happen
Tended-happen id [] w t = t
Tended-happen id (e ∷ es) w t = Tended-happen id es (happen_one id e w) (Tended-happen_one id e w t)

correlated-id :
    (e : DispatchEnvelope) (o : Option String) (d : Dispatch)
    → (correlated e o d).dispatch_id ≡ d.dispatch_id
correlated-id e none d = refl
correlated-id e (some id) d = refl

ended-tended :
    (id : ℕ) (ds : List Dispatch)
    → all (λ d. is_ended d.state) ds ≡ true
    → all (is_tended id) ds ≡ true
unfolding all
ended-tended id [] h = refl
ended-tended id (d ∷ ds) h = ground (arith, ended-tended id ds)

module _ (call : Call) where
  Tended-mark_sent :
      (w : World) → Tended call.turn.dispatch_id w → Tended call.turn.dispatch_id (mark_sent call w)
  unfolding mark_sent
  Tended-mark_sent w t = record {
    at =
        update-Tended call.turn.dispatch_id (apply_all (Mark.dispatched call.turn.sent_at ∷ []))
          w.dispatches (apply_all-id (Mark.dispatched call.turn.sent_at ∷ [])) t.at;
  }

  Tended-persist :
      (e : DispatchEnvelope) (w : World)
      → Tended call.turn.dispatch_id w
      → Tended call.turn.dispatch_id (persist_correlation call e w)
  unfolding persist_correlation
  Tended-persist e w t =
      Tended-if call.turn.dispatch_id (same_dispatch_mode e.mode DispatchMode.engine)
        (record {
          at =
              update-Tended call.turn.dispatch_id _ w.dispatches (correlated-id e e.correlation_id)
                t.at;
        })
        t

  failed-id :
      (detail : String) (b : Bool) (d : Dispatch)
      → (if b
          then d
          else apply_all (Mark.failed call.turn.ended_at none (some detail) ∷ []) d).dispatch_id
        ≡ d.dispatch_id
  failed-id detail true d = refl
  failed-id detail false d = apply_all-id _ d

  Tended-mark_dispatch_failed :
      (detail : String) (w : World)
      → Tended call.turn.dispatch_id w
      → Tended call.turn.dispatch_id (mark_dispatch_failed call detail w)
  unfolding mark_dispatch_failed
  Tended-mark_dispatch_failed detail w t = record {
    at =
        update-Tended call.turn.dispatch_id _ w.dispatches
          (λ d. failed-id detail (is_ended d.state) d) t.at;
  }

  Tended-pause :
      (w : World) → Tended call.turn.dispatch_id w → Tended call.turn.dispatch_id (pause call w)
  unfolding mark_paused
  Tended-pause w t = Tended-if call.turn.dispatch_id (is_human call) (record { at = t.at }) t

  Tended-resume :
      (w : World) → Tended call.turn.dispatch_id w → Tended call.turn.dispatch_id (resume call w)
  unfolding mark_running
  Tended-resume w t = Tended-if call.turn.dispatch_id (is_human call) (record { at = t.at }) t

  Tended-after_wait :
      (x : Wait) (w : World)
      → Tended call.turn.dispatch_id w
      → Tended call.turn.dispatch_id (after_wait call x w).1
  Tended-after_wait (Wait.delivered e) w t = Tended-resume w t
  Tended-after_wait Wait.timed_out w t =
      Tended-resume (mark_dispatch_failed call (timeout_detail call) w)
        (Tended-mark_dispatch_failed (timeout_detail call) w t)
  Tended-after_wait Wait.dispatch_cancelled w t = Tended-resume w t
  Tended-after_wait Wait.cancelled w t = Tended-resume w t
  Tended-after_wait Wait.never w t = t

  Tended-await :
      (w : World) → Tended call.turn.dispatch_id w → Tended call.turn.dispatch_id (await call w).1
  unfolding await
  Tended-await w t =
      Tended-after_wait (wait_of call) _
        (Tended-happen call.turn.dispatch_id call.turn.meanwhile (pause call w) (Tended-pause w t))

  Tended-heard :
      (b : Bool) (x y : Heard × World)
      → Tended call.turn.dispatch_id x.1
      → Tended call.turn.dispatch_id y.1
      → Tended call.turn.dispatch_id (if b then x else y).1
  Tended-heard true x y s t = s
  Tended-heard false x y s t = t

  Tended-after_reply :
      (r : Reply) (w : World)
      → Tended call.turn.dispatch_id w
      → Tended call.turn.dispatch_id (after_reply call r w).1
  Tended-after_reply (Reply.returned e) w t =
      Tended-heard (same_dispatch_state e.state DispatchState.dispatched)
        (await call (persist_correlation call e w)) (got e, w)
        (Tended-await (persist_correlation call e w) (Tended-persist e w t)) t
  Tended-after_reply (Reply.threw why) w t = t
  Tended-after_reply Reply.cancelled w t = t
  Tended-after_reply Reply.never w t = t

  Tended-run_executor :
      (w : World)
      → Tended call.turn.dispatch_id w
      → Tended call.turn.dispatch_id (run_executor call w).1
  unfolding run_executor
  Tended-run_executor w t =
      Tended-after_reply call.turn.reply _
        (Tended-happen call.turn.dispatch_id call.turn.during w t)

  with_data-dispatches :
      (e : DispatchEnvelope) (w : World) (o : Option Fields)
      → (with_data e w o).1.dispatches ≡ w.dispatches
  with_data-dispatches e w none = refl
  with_data-dispatches e w (some whole) = refl

  conclude-ended :
      (x : Heard) (w : World)
      → Tended call.turn.dispatch_id w
      → (conclude call x w).0 ≡ Exit.done
      → all (λ d. is_ended d.state) (conclude call x w).1.dispatches ≡ true
  unfolding conclude commit_terminal
  conclude-ended was_cancelled w t h = ground arith
  conclude-ended wait_failed w t h = ground arith
  conclude-ended nothing w t h = ground arith
  conclude-ended (got e) w t h =
      ap (all (λ d. is_ended d.state)) (with_data-dispatches e (commit_terminal call e w) _)
      ∙ commit-ended call e w.dispatches t.at

  Tended-insert_rows :
      (w : World)
      → all (λ d. is_ended d.state) w.dispatches ≡ true
      → Tended call.turn.dispatch_id (insert_rows call w)
  unfolding insert_rows all is_ended
  Tended-insert_rows w h = record {
    at =
        ground
          (arith, ==-refl call.turn.dispatch_id, ended-tended call.turn.dispatch_id w.dispatches h);
  }

  execute_bound-ended :
      (w : World)
      → all (λ d. is_ended d.state) w.dispatches ≡ true
      → (execute_bound call w).0 ≡ Exit.done
      → all (λ d. is_ended d.state) (execute_bound call w).1.dispatches ≡ true
  unfolding execute_bound
  execute_bound-ended w h d =
      let sent = mark_sent call (insert_rows call w) in
      conclude-ended (run_executor call sent).0 (run_executor call sent).1
        (Tended-run_executor sent (Tended-mark_sent (insert_rows call w) (Tended-insert_rows w h)))
        d

module _ (setup : Setup) (turn : Turn) (number : ℕ) where
  with_intake-ended :
      (node : String) (binding : Binding) (o : Option Fields) (w : World)
      → all (λ d. is_ended d.state) w.dispatches ≡ true
      → (with_intake setup turn number node binding o w).0 ≡ Exit.done
      → all (λ d. is_ended d.state) (with_intake setup turn number node binding o w).1.dispatches
        ≡ true
  with_intake-ended node binding none w h d = h
  with_intake-ended node binding (some intake) w h d =
      execute_bound-ended (call_of setup turn number node binding intake) w h d

  with_binding-ended :
      (node : String) (o : Option Binding) (w : World)
      → all (λ d. is_ended d.state) w.dispatches ≡ true
      → (with_binding setup turn number node o w).0 ≡ Exit.done
      → all (λ d. is_ended d.state) (with_binding setup turn number node o w).1.dispatches ≡ true
  with_binding-ended node none w h d = h
  with_binding-ended node (some binding) w h d =
      with_intake-ended node binding (build_intake setup node binding w) w h d

  -- When no dispatch of the run is open and a node's call ends so that the loop goes on, then no
  -- dispatch is open afterwards either: the node's own dispatch has completed or failed, whether its
  -- envelope came from the executor, from a delivery or from the timeout, and whatever marks other
  -- tasks have put on it meanwhile.
  pub execute_node-ended :
      (node : String) (w : World)
      → all (λ d. is_ended d.state) w.dispatches ≡ true
      → (execute_node setup turn number node w).0 ≡ Exit.done
      → all (λ d. is_ended d.state) (execute_node setup turn number node w).1.dispatches ≡ true
  unfolding execute_node
  execute_node-ended node w h d =
      with_binding-ended node (resolve (setup.agent_ref, node) setup.bindings) w h d

-- ===== src/Runtime/Frames.antt =====
-- What the parts of an iteration leave alone: the row of a run that is over, and which nodes the steps
-- are of.
use carestechs_agent_orchest.Prelude.{
  ℕ, String, Bool, true, false, Option, none, some, List, [], ◌∷◌, map, update, ◌≡◌, refl, ap, ◌∙◌,
  arith, if◌then◌else◌,
}
use carestechs_agent_orchest.Enums.Runtime.{
  StopReason, DispatchMode, same_dispatch_mode, DispatchState, same_dispatch_state,
}
use carestechs_agent_orchest.Json.Value.{Fields}
use carestechs_agent_orchest.Runtime.State.{Run, Step, DispatchEnvelope, World, is_over, is_step}
use carestechs_agent_orchest.Runtime.Turns.{Event, Reply, Wait}
use carestechs_agent_orchest.Runtime.Status.{
  unless_over, mark_running, mark_paused, terminate, cancel_run,
}
use carestechs_agent_orchest.Runtime.Bookkeeping.{is_private}
use carestechs_agent_orchest.Runtime.Setup.{
  Heard, got, was_cancelled, wait_failed, nothing, happen_one, happen,
}
use carestechs_agent_orchest.Runtime.Node.{
  Call, insert_rows, mark_sent, persist_correlation, mark_dispatch_failed, await, wait_of,
  run_executor, commit_terminal, conclude, execute_bound, after_wait, after_reply, with_data, pause,
  resume, is_human, sent_step, ended_step, timeout_detail,
}

-- Without a row, or with a row that is over.
abbrev pub is_settled : Option Run → Bool
is_settled none = true
is_settled (some run) = is_over run.status

-- The number and the node of each step, the newest first.
abbrev pub entry_of : Step → ℕ × String
entry_of s = (s.step_number, s.node_name)

abbrev pub log : World → List (ℕ × String)
log w = map entry_of w.steps

pub record Frame (w w' : World) : Type 0 where
  pub run : is_settled w.run ≡ true → w'.run ≡ w.run
  pub steps : log w' ≡ log w

pub Frame-refl : (w : World) → Frame w w
Frame-refl w = record { run = λ h. refl; steps = refl }

pub Frame-trans : (a b c : World) → Frame a b → Frame b c → Frame a c
Frame-trans a b c f g = record {
  run = λ h. g.run (ap is_settled (f.run h) ∙ h) ∙ f.run h;
  steps = g.steps ∙ f.steps;
}

pub Frame-if :
    {w left right : World} (b : Bool)
    → Frame w left
    → Frame w right
    → Frame w (if b then left else right)
Frame-if true l r = l
Frame-if false l r = r

map-update :
    {A B : Type 0} (g : A → B) (p : A → Bool) (f : A → A) (xs : List A)
    → ((x : A) → g (f x) ≡ g x)
    → map g (update p f xs) ≡ map g xs
unfolding update
map-update g p f [] h = refl
map-update g p f (x ∷ xs) h = ground (arith, map-update g p f xs h, h x)

unless_over-settled :
    (change : Run → Run) (run : Option Run) → is_settled run ≡ true → unless_over change run ≡ run
unless_over-settled change none h = refl
unless_over-settled change (some run) h = ground arith

pub mark_running-Frame : (w : World) → Frame w (mark_running w)
unfolding mark_running
mark_running-Frame w = record { run = λ h. unless_over-settled _ w.run h; steps = refl }

pub mark_paused-Frame : (w : World) → Frame w (mark_paused w)
unfolding mark_paused
mark_paused-Frame w = record { run = λ h. unless_over-settled _ w.run h; steps = refl }

pub terminate-Frame :
    (reason : StopReason) (more : Fields) (at : ℕ) (w : World)
    → Frame w (terminate reason more at w)
unfolding terminate
terminate-Frame reason more at w = record { run = λ h. unless_over-settled _ w.run h; steps = refl }

happen_one-Frame : (id : ℕ) (e : Event) (w : World) → Frame w (happen_one id e w)
unfolding happen_one cancel_run
happen_one-Frame id (Event.cancelled reason at) w = record {
  run = λ h. unless_over-settled _ w.run h;
  steps = refl;
}
happen_one-Frame id (Event.marked m) w = record { run = λ h. refl; steps = refl }
happen_one-Frame id (Event.wrote key value) w =
    Frame-if (is_private key) (Frame-refl w) (record { run = λ h. refl; steps = refl })

pub happen-Frame : (id : ℕ) (es : List Event) (w : World) → Frame w (happen id es w)
unfolding happen
happen-Frame id [] w = Frame-refl w
happen-Frame id (e ∷ es) w =
    Frame-trans w (happen_one id e w) _ (happen_one-Frame id e w)
      (happen-Frame id es (happen_one id e w))

module _ (call : Call) where
  mark_sent-Frame : (w : World) → Frame w (mark_sent call w)
  unfolding mark_sent
  mark_sent-Frame w = record {
    run = λ h. refl;
    steps = map-update entry_of (is_step call.turn.step_id) (sent_step call) w.steps (λ s. refl);
  }

  persist_correlation-Frame :
      (e : DispatchEnvelope) (w : World) → Frame w (persist_correlation call e w)
  unfolding persist_correlation
  persist_correlation-Frame e w =
      Frame-if (same_dispatch_mode e.mode DispatchMode.engine)
        (record { run = λ h. refl; steps = refl }) (Frame-refl w)

  mark_dispatch_failed-Frame :
      (detail : String) (w : World) → Frame w (mark_dispatch_failed call detail w)
  unfolding mark_dispatch_failed
  mark_dispatch_failed-Frame detail w = record { run = λ h. refl; steps = refl }

  commit_terminal-Frame : (e : DispatchEnvelope) (w : World) → Frame w (commit_terminal call e w)
  unfolding commit_terminal
  commit_terminal-Frame e w = record {
    run = λ h. refl;
    steps = map-update entry_of (is_step call.turn.step_id) (ended_step e) w.steps (λ s. refl);
  }

  pause-Frame : (w : World) → Frame w (pause call w)
  pause-Frame w = Frame-if (is_human call) (mark_paused-Frame w) (Frame-refl w)

  resume-Frame : (w : World) → Frame w (resume call w)
  resume-Frame w = Frame-if (is_human call) (mark_running-Frame w) (Frame-refl w)

  after_wait-Frame : (x : Wait) (w : World) → Frame w (after_wait call x w).1
  after_wait-Frame (Wait.delivered e) w = resume-Frame w
  after_wait-Frame Wait.timed_out w =
      Frame-trans w (mark_dispatch_failed call (timeout_detail call) w) _
        (mark_dispatch_failed-Frame (timeout_detail call) w)
        (resume-Frame (mark_dispatch_failed call (timeout_detail call) w))
  after_wait-Frame Wait.dispatch_cancelled w = resume-Frame w
  after_wait-Frame Wait.cancelled w = resume-Frame w
  after_wait-Frame Wait.never w = Frame-refl w

  await-Frame : (w : World) → Frame w (await call w).1
  unfolding await
  await-Frame w =
      let paused = pause call w in
      let later = happen call.turn.dispatch_id call.turn.meanwhile paused in
      Frame-trans w paused _ (pause-Frame w) (
        Frame-trans paused later _ (happen-Frame call.turn.dispatch_id call.turn.meanwhile paused)
          (after_wait-Frame (wait_of call) later))

  Frame-heard :
      (w : World) (b : Bool) (x y : Heard × World)
      → Frame w x.1
      → Frame w y.1
      → Frame w (if b then x else y).1
  Frame-heard w true x y f g = f
  Frame-heard w false x y f g = g

  after_reply-Frame : (r : Reply) (w : World) → Frame w (after_reply call r w).1
  after_reply-Frame (Reply.returned e) w =
      Frame-heard w (same_dispatch_state e.state DispatchState.dispatched)
        (await call (persist_correlation call e w)) (got e, w)
        (Frame-trans w (persist_correlation call e w) _ (persist_correlation-Frame e w)
          (await-Frame (persist_correlation call e w)))
        (Frame-refl w)
  after_reply-Frame (Reply.threw why) w = Frame-refl w
  after_reply-Frame Reply.cancelled w = Frame-refl w
  after_reply-Frame Reply.never w = Frame-refl w

  pub run_executor-Frame : (w : World) → Frame w (run_executor call w).1
  unfolding run_executor
  run_executor-Frame w =
      let later = happen call.turn.dispatch_id call.turn.during w in
      Frame-trans w later _ (happen-Frame call.turn.dispatch_id call.turn.during w)
        (after_reply-Frame call.turn.reply later)

  with_data-Frame :
      (e : DispatchEnvelope) (w : World) (o : Option Fields) → Frame w (with_data e w o).1
  with_data-Frame e w none = Frame-refl w
  with_data-Frame e w (some whole) = record { run = λ h. refl; steps = refl }

  pub conclude-Frame : (x : Heard) (w : World) → Frame w (conclude call x w).1
  unfolding conclude
  conclude-Frame was_cancelled w = Frame-refl w
  conclude-Frame wait_failed w = Frame-refl w
  conclude-Frame nothing w = Frame-refl w
  conclude-Frame (got e) w =
      Frame-trans w (commit_terminal call e w) _ (commit_terminal-Frame e w)
        (with_data-Frame e (commit_terminal call e w) _)

  -- A node that is called adds its step, and leaves a run that is over as it is.
  pub execute_bound-Frame : (w : World) → Frame (insert_rows call w) (execute_bound call w).1
  unfolding execute_bound
  execute_bound-Frame w =
      let inserted = insert_rows call w in
      let sent = mark_sent call inserted in
      let heard = run_executor call sent in
      Frame-trans inserted sent _ (mark_sent-Frame inserted)
        (Frame-trans sent heard.1 _ (run_executor-Frame sent) (conclude-Frame heard.0 heard.1))

-- ===== src/Runtime/Dispatches.antt =====
-- The dispatch of a node that the loop has gone through is ended.
use carestechs_agent_orchest.Prelude.{
  ℕ, Bool, true, ◌||◌, List, [], ◌∷◌, all, update, ◌≡◌, inl, inr, refl, ◌∙◌, arith, if◌then◌else◌,
  ok, Result-cases, Option, String,
}
use mathlib.Core.Option
use carestechs_agent_orchest.Enums.Runtime.{StepStatus, DispatchState, DispatchOutcome}
use carestechs_agent_orchest.Json.Value.{Fields}
use carestechs_agent_orchest.Dispatch.Row.{
  Dispatch, transition, mark_dispatched, mark_completed, mark_failed, mark_cancelled, allows,
}
use carestechs_agent_orchest.Dispatch.Machine.{Mark, apply, apply_all, is_ended}
use carestechs_agent_orchest.Runtime.State.{Step, DispatchEnvelope, World, is_dispatch}
use carestechs_agent_orchest.Runtime.Node.{Call, marks_left, is_outcome}

-- The marks that a row still needs: one that is ended stays in its state, and another is completed or
-- failed by the envelope's outcome.
pub commit-state :
    (call : Call) (e : DispatchEnvelope) (d : Dispatch)
    → (apply_all (marks_left call e d.state) d).state ≡ (
        if is_ended d.state
        then d.state
        else if is_outcome DispatchOutcome.succeeded e.outcome
        then DispatchState.completed
        else DispatchState.failed)
unfolding apply_all apply mark_dispatched mark_completed mark_failed transition allows is_ended
commit-state call e d = ground arith

apply-id : (m : Mark) (d d' : Dispatch) → apply m d ≡ ok d' → d'.dispatch_id ≡ d.dispatch_id
unfolding apply mark_dispatched mark_completed mark_failed mark_cancelled transition allows
apply-id (Mark.dispatched at) d d' h = ground arith
apply-id (Mark.completed at result detail) d d' h = ground arith
apply-id (Mark.failed at result detail) d d' h = ground arith
apply-id (Mark.cancelled at detail) d d' h = ground arith

pub apply_all-id : (ms : List Mark) (d : Dispatch) → (apply_all ms d).dispatch_id ≡ d.dispatch_id
unfolding apply_all
apply_all-id [] d = refl
apply_all-id (m ∷ ms) d = elim (Result-cases (apply m d)) [
  | inl (d', e) ↦ rw (apply_all, e) (apply_all-id ms d' ∙ apply-id m d d' e)
  | inr (x, e) ↦ rw (apply_all, e) (apply_all-id ms d)
]

-- A dispatch that is ended, or has the given id.
abbrev pub is_tended : ℕ → Dispatch → Bool
is_tended id d = is_ended d.state || is_dispatch id d

pub record Tended (id : ℕ) (w : World) : Type 0 where
  pub at : all (is_tended id) w.dispatches ≡ true

-- A change of the dispatch at hand leaves its id.
pub update-Tended :
    (id : ℕ) (change : Dispatch → Dispatch) (ds : List Dispatch)
    → ((d : Dispatch) → (change d).dispatch_id ≡ d.dispatch_id)
    → all (is_tended id) ds ≡ true
    → all (is_tended id) (update (is_dispatch id) change ds) ≡ true
unfolding all update
update-Tended id change [] same h = refl
update-Tended id change (d ∷ ds) same h = ground (arith, update-Tended id change ds same, same d)

pub commit-ended :
    (call : Call) (e : DispatchEnvelope) (ds : List Dispatch)
    → all (is_tended call.turn.dispatch_id) ds ≡ true
    → all
        (λ d. is_ended d.state)
        (update
          (is_dispatch call.turn.dispatch_id)
          (λ d. apply_all (marks_left call e d.state) d)
          ds)
      ≡ true
unfolding all update is_ended
commit-ended call e [] h = refl
commit-ended call e (d ∷ ds) h = ground (arith, commit-ended call e ds, commit-state call e d)

-- The columns that an envelope fills.
abbrev pub columns : Dispatch → DispatchState × Option Fields × Option String
columns d = (d.state, d.result, d.detail)

abbrev pub step_columns : Step → StepStatus × Option Fields
step_columns s = (s.status, s.node_result)

-- The columns after a commit: those of the envelope, or of the row itself where it has ended.
abbrev pub columns_after :
    DispatchEnvelope → Dispatch → DispatchState × Option Fields × Option String
columns_after e d = if is_ended d.state then columns d else (
  if is_outcome DispatchOutcome.succeeded e.outcome
      then DispatchState.completed
      else DispatchState.failed,
  e.result,
  e.detail,
)

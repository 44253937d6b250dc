-- ===== src/Dispatch/Machine.antt =====
-- The state machine of a dispatch: what its marks keep, and that an ended dispatch stays as it is.
use carestechs_agent_orchest.Prelude.{
  ℕ, String, ◌≡◌, refl, Bool, true, false, Option, none, some, is_some, List, [], ◌∷◌, Result, ok,
  err, arith, illegal_transition, Result-cases, inl, inr,
}
use carestechs_agent_orchest.Enums.Runtime.{DispatchState, DispatchOutcome}
use carestechs_agent_orchest.Json.Value.{Fields}
use carestechs_agent_orchest.Dispatch.Row.{
  Dispatch, mark_dispatched, mark_completed, mark_failed, mark_cancelled,
}

-- The calls that change the state of a dispatch.
pub data Mark : Type 0 where
  dispatched : ℕ → Mark
  completed failed : ℕ → Option Fields → Option String → Mark
  cancelled : ℕ → Option String → Mark

unfoldable pub apply : Mark → Dispatch → Result Dispatch
unfolding mark_dispatched mark_completed mark_failed mark_cancelled
apply (dispatched at) d = mark_dispatched at d
apply (completed at result detail) d = mark_completed at result detail d
apply (failed at result detail) d = mark_failed at result detail d
apply (cancelled at detail) d = mark_cancelled at detail d

-- One call after the other; one that raises leaves the row as it is.
unfoldable pub apply_all : List Mark → Dispatch → Dispatch
unfolding apply
apply_all [] d = d
apply_all (m ∷ ms) d = elim (apply m d) [ ok d' ↦ apply_all ms d' | err _ ↦ apply_all ms d ]

unfoldable pub is_ended : DispatchState → Bool
is_ended DispatchState.pending = false
is_ended DispatchState.dispatched = false
is_ended _ = true

-- The outcome that each state comes with.
unfoldable pub outcome_of : DispatchState → Option DispatchOutcome
outcome_of DispatchState.pending = none
outcome_of DispatchState.dispatched = none
outcome_of DispatchState.completed = some DispatchOutcome.succeeded
outcome_of DispatchState.failed = some DispatchOutcome.error
outcome_of DispatchState.cancelled = some DispatchOutcome.cancelled

unfoldable pub was_sent : DispatchState → Bool
was_sent DispatchState.pending = false
was_sent DispatchState.cancelled = false
was_sent _ = true

-- The columns of a dispatch agree with its state.
pub record IsCoherent (d : Dispatch) : Type 0 where
  pub outcome : d.outcome ≡ outcome_of d.state
  pub finished : is_some d.finished_at ≡ is_ended d.state
  pub sent : was_sent d.state ≡ true → is_some d.dispatched_at ≡ true
  pub no_result : is_ended d.state ≡ false → d.result ≡ none

apply-ended :
    (m : Mark) (d : Dispatch) → is_ended d.state ≡ true → apply m d ≡ err illegal_transition
unfolding apply is_ended
apply-ended (dispatched at) d h = ground arith
apply-ended (completed at result detail) d h = ground arith
apply-ended (failed at result detail) d h = ground arith
apply-ended (cancelled at detail) d h = ground arith

apply-IsCoherent : (m : Mark) (d d' : Dispatch) → IsCoherent d → apply m d ≡ ok d' → IsCoherent d'
unfolding apply is_ended outcome_of was_sent
apply-IsCoherent (dispatched at) d d' c h = record {
  outcome = ground (arith, c.outcome);
  finished = ground (arith, c.finished);
  sent = ground arith;
  no_result = ground (arith, c.no_result);
}
apply-IsCoherent (completed at result detail) d d' c h = record {
  outcome = ground arith;
  finished = ground arith;
  sent = ground (arith, c.sent);
  no_result = ground arith;
}
apply-IsCoherent (failed at result detail) d d' c h = record {
  outcome = ground arith;
  finished = ground arith;
  sent = ground (arith, c.sent);
  no_result = ground arith;
}
apply-IsCoherent (cancelled at detail) d d' c h = record {
  outcome = ground arith;
  finished = ground arith;
  sent = ground arith;
  no_result = ground arith;
}

-- An ended dispatch is as it is for good: whatever calls follow, each of them raises and the row
-- stays unchanged.
pub apply_all-ended : (ms : List Mark) (d : Dispatch) → is_ended d.state ≡ true → apply_all ms d ≡ d
unfolding apply_all
apply_all-ended [] d h = refl
apply_all-ended (m ∷ ms) d h = rw (apply_all, apply-ended m d h) (apply_all-ended ms d h)

-- Whatever calls a coherent dispatch gets, its columns agree with its state: its outcome is that of
-- the state, it has an end time exactly when it has ended, it has a result only when it has ended,
-- and it completed or failed only after it was sent.
pub apply_all-IsCoherent :
    (ms : List Mark) (d : Dispatch) → IsCoherent d → IsCoherent (apply_all ms d)
unfolding apply_all
apply_all-IsCoherent [] d c = c
apply_all-IsCoherent (m ∷ ms) d c = elim (Result-cases (apply m d)) [
  | inl (d', e) ↦ rw (apply_all, e) (apply_all-IsCoherent ms d' (apply-IsCoherent m d d' c e))
  | inr (x, e) ↦ rw (apply_all, e) (apply_all-IsCoherent ms d c)
]

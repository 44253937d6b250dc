-- ===== src/Lifecycle/Reactor/Wake.antt =====
-- src/app/modules/ai/lifecycle/reactor.py: the wake-up of the engine-mode dispatch that waits for a
-- transition.
use carestechs_agent_orchest.Prelude.{
  ℕ, String, Bool, not, ◌&&◌, Option, none, some, ◌∷◌, ◌==◌, find, update, ok, err, gets, pure,
  raise, modify, if◌then◌else◌, ◌>>=◌, ◌>>◌,
}
use carestechs_agent_orchest.Enums.Runtime.{
  DispatchMode, same_dispatch_mode, DispatchState, same_dispatch_state,
}
use carestechs_agent_orchest.Json.Value.{
  Json, null, text, Fields, end, field, get, is_text, as_text,
}
use carestechs_agent_orchest.Dispatch.Row.{Dispatch, mark_completed}
use carestechs_agent_orchest.Lifecycle.Store.{Session, Ctx, Action, write}
use carestechs_agent_orchest.Lifecycle.Reactor.Event.{WebhookEvent}

abbrev or_null : Option String → Json
or_null none = null
or_null (some t) = text t

-- `mode = 'engine' AND intake->>'correlation_id' = :corr`
unfoldable pub awaits : String → Dispatch → Bool
unfolding get
awaits corr d =
    same_dispatch_mode d.mode DispatchMode.engine && is_text (get "correlation_id" d.intake) corr

abbrev pub is_dispatch : ℕ → Dispatch → Bool
is_dispatch id d = d.dispatch_id == id

-- The result that the runtime gets.
unfoldable pub wake_result : String → WebhookEvent → Dispatch → Fields
unfolding get
wake_result corr event d = field "correlation_id" (text corr) (
    field "transition_key" (get "transition_key" d.intake) (
      field "engine_to_status" (or_null event.to_status)
        (field "engine_from_status" (or_null event.from_status) end)))

module _ (ctx : Ctx) where
  -- `_wake_dispatch`. The query has no order; the rows of one correlation id are taken in the order
  -- of the table.
  unfoldable pub wake_dispatch : ℕ → WebhookEvent → Action Unit
  wake_dispatch corr event = do
    row ← gets (λ (s : Session). find (awaits (ctx.id_text corr)) s.db.dispatches)
    elim row [
      | none ↦ pure tt
      | some d ↦
          if not (same_dispatch_state d.state DispatchState.dispatched)
          then pure tt
          else (let result = wake_result (ctx.id_text corr) event d in
              elim (mark_completed ctx.now (some result) none d) [
                | err e ↦ raise e
                | ok d' ↦ do
                  write (λ db. record db {
                    dispatches = update (is_dispatch d.dispatch_id) (λ _. d') db.dispatches;
                  })
                  modify (λ (s : Session). record s {
                    woken =
                        record {
                          dispatch_id = d.dispatch_id;
                          run_id = d.run_id;
                          result = result;
                          finished_at = ctx.now;
                          correlation_id = corr;
                          transition_key = as_text (get "transition_key" d.intake);
                        }
                        ∷ s.woken;
                  })
              ])
    ]

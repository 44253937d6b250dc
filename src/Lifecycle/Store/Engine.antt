-- ===== src/Lifecycle/Store/Engine.antt =====
-- What goes out to the flow engine (src/app/modules/ai/lifecycle/engine_client.py is its HTTP
-- client): the guarded calls that work items and tasks share.
use carestechs_agent_orchest.Prelude.{ℕ, String, Option, none, some, ◌∷◌, modify, pure}
use carestechs_agent_orchest.Lifecycle.Store.State.{Ctx, Session, Action}

module _ (ctx : Ctx) where
  -- The request, when there is an engine and the row has an item there. Its failure is dropped.
  unfoldable pub send_transition : Option ℕ → String → Option ℕ → String → Action Unit
  send_transition engine_item_id to_status corr actor = elim ctx.engine [
    | none ↦ pure tt
    | some client ↦ elim engine_item_id [
      | none ↦ pure tt
      | some item ↦ modify (λ (s : Session). record s {
        calls =
            record { item_id = item; to_status = to_status; correlation_id = corr; actor = actor }
            ∷ s.calls;
      })
    ]
  ]

  -- The id of a new engine item: none without engine or workflow, or where `create_item` raises.
  unfoldable pub create_engine_item : Option ℕ → String → String → Option ℕ
  create_engine_item workflow_id title external_ref = elim ctx.engine [
    | none ↦ none
    | some client ↦ elim workflow_id [
      | none ↦ none
      | some workflow ↦ client.create_item workflow title external_ref
    ]
  ]

-- ===== src/Lifecycle/Signals/Common.antt =====
-- src/app/modules/ai/lifecycle/service.py: what the adapters share.
use carestechs_agent_orchest.Prelude.{ℕ, String, is_some, pure, when, ◌>>=◌, ◌>>◌}
use carestechs_agent_orchest.Lifecycle.Store.{
  AuxPayload, Payload, Ctx, Action, fresh, insert_context, insert_aux_write,
}

module _ (ctx : Ctx) where
  -- `str(task_id)`
  abbrev pub task_text : ℕ → String
  task_text id = ctx.id_text id

  -- `_with_correlation`
  unfoldable pub with_correlation : String → Payload → Action ℕ
  unfolding fresh insert_context
  with_correlation signal_name payload = do
    corr ← fresh ctx
    insert_context (record { correlation_id = corr; signal_name = signal_name; payload = payload })
    pure corr

  -- `if engine is not None: _enqueue_aux(...)`; the entity is always a task.
  unfoldable pub enqueue_aux : ℕ → String → ℕ → AuxPayload → Action Unit
  unfolding insert_aux_write
  enqueue_aux corr signal_name entity_id payload = when (is_some ctx.engine) (
      insert_aux_write (record {
        correlation_id = corr;
        signal_name = signal_name;
        entity_type = "task";
        entity_id = entity_id;
        payload = payload;
      }))

-- ===== src/Lifecycle/Idempotency.antt =====
-- src/app/modules/ai/lifecycle/idempotency.py
use carestechs_agent_orchest.Prelude.{
  ℕ, String, Bool, true, false, none, some, ◌∷◌, str_eq, find, pure, gets, ◌>>=◌, ◌>>◌,
}
use carestechs_agent_orchest.Lifecycle.Store.{LifecycleSignal, Payload, Session, Ctx, Action, write}

abbrev pub has_key : String → LifecycleSignal → Bool
has_key key row = str_eq row.key key

module _ (ctx : Ctx) where
  -- The JSON has its keys sorted: the payloads of the signals are written in key order.
  abbrev pub compute_signal_key : ℕ → String → Payload → String
  compute_signal_key entity_id signal_name payload = ctx.digest entity_id signal_name payload

  -- Whether the key is new, and when it was first recorded. `ON CONFLICT DO NOTHING` leaves the
  -- row that is there.
  unfoldable pub check_and_record : String → ℕ → String → Action (Bool × ℕ)
  check_and_record key entity_id signal_name = do
    prior ← gets (λ (s : Session). find (has_key key) s.db.signals)
    elim prior [
      | some row ↦ pure (false, row.recorded_at)
      | none ↦ do
        write (λ db. record db {
          signals =
              record {
                key = key;
                entity_id = entity_id;
                signal_name = signal_name;
                recorded_at = ctx.now;
              }
              ∷ db.signals;
        })
        pure (true, ctx.now)
    ]

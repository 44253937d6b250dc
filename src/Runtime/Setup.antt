-- ===== src/Runtime/Setup.antt =====
-- src/app/modules/ai/runtime_deterministic.py: the loop's arguments, what other tasks commit while it
-- waits, and the intake that `_execute_node` hands on.
use carestechs_agent_orchest.Prelude.{
  ℕ, String, Option, none, some, List, [], ◌∷◌, update, if◌then◌else◌,
}
use carestechs_agent_orchest.Json.Value.{text, Fields, end, field, set, set_default, merge}
use carestechs_agent_orchest.Memory.Store.{read_lifecycle_memory}
use carestechs_agent_orchest.Dispatch.Machine.{apply_all}
use carestechs_agent_orchest.Executors.Registry.{Registry, Binding}
use carestechs_agent_orchest.Flow.Predicates.{Env}
use carestechs_agent_orchest.Flow.Resolver.{Declaration}
use carestechs_agent_orchest.Runtime.State.{DispatchEnvelope, World, is_dispatch}
use carestechs_agent_orchest.Runtime.Turns.{Event}
use carestechs_agent_orchest.Runtime.Status.{cancel_run}
use carestechs_agent_orchest.Runtime.Bookkeeping.{data_of, is_private}

-- The arguments of the loop, its agent's definition among them. `max_steps` is 0 for no budget.
pub record Setup : Type 0 where
  pub run_id : ℕ
  pub run_id_text : String
  pub agent_ref : String
  pub declaration : Declaration
  pub max_steps : ℕ
  pub bindings : Registry
  pub env : Env
  pub dispatch_timeout_seconds : ℕ
  pub show_timeout : Option ℕ → String

-- How a part of the loop ends: normally, by `CancelledError`, by another exception, or not at all.
pub data Exit : Type 0 where
  done cancelled crashed hung : Exit

-- What the loop hears of a dispatch.
pub data Heard : Type 0 where
  got : DispatchEnvelope → Heard
  was_cancelled wait_failed nothing : Heard

-- One event, for the dispatch at hand.
unfoldable pub happen_one : ℕ → Event → World → World
unfolding cancel_run update apply_all set
happen_one id (Event.cancelled reason at) w = cancel_run reason at w
happen_one id (Event.marked m) w = record w {
  dispatches = update (is_dispatch id) (apply_all (m ∷ [])) w.dispatches;
}
happen_one id (Event.wrote key value) w =
    if is_private key then w else record w { memory = some (set key value (data_of w)) }

unfoldable pub happen : ℕ → List Event → World → World
unfolding happen_one
happen id [] w = w
happen id (e ∷ es) w = happen id es (happen_one id e w)

module _ (setup : Setup) (node : String) (binding : Binding) where
  abbrev with_task : Option String → Fields → Fields
  with_task none intake = intake
  with_task (some id) intake = set_default "taskId" (text id) intake

  abbrev with_extra : Option (Fields → Option Fields) → Fields → Fields → Option Fields
  with_extra none whole intake = some intake
  with_extra (some build) whole intake = elim (build whole) [
    | none ↦ none
    | some extra ↦ some (merge intake extra)
  ]

  abbrev run_intake : World → Fields
  run_intake w = elim w.run [ none ↦ end | some run ↦ run.intake ]

  -- `_build_node_intake`, on top of the run's intake, then the current task and the binding's own.
  unfoldable pub build_intake : World → Option Fields
  unfolding read_lifecycle_memory merge set_default
  build_intake w = elim (read_lifecycle_memory setup.env.lax (data_of w)) [
    | none ↦ none
    | some m ↦ with_extra binding.intake_builder (data_of w) (
        with_task m.current_task_id (
          merge (run_intake w)
            (field "runId" (text setup.run_id_text) (field "nodeName" (text node) end))))
  ]

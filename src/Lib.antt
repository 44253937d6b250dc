-- ===== src/Lib.antt =====
-- The deterministic lifecycle of the agent orchestrator (src/app/modules/ai): work items and their
-- tasks move through their statuses by signals, each once; a flow engine mirrors them and answers by
-- webhooks; dispatches of executors wait for it; the loop of a deterministic agent resolves the next
-- node from its flow and calls the executor that is bound to it; the other loop stops by rules.
--
-- Prelude: names of the library, Boolean tests on the native numbers, lists, the monad `Exec` of a
-- state and an error, and `Keeps` and `Again`, the invariants and the repetition of its actions.
--
-- Enums: src/app/modules/ai/enums.py. An enum column is the enum; `X_value` is its text, and `same_X`
-- is `==`.
--
-- Dispatch.Row: `Dispatch` of src/app/modules/ai/models.py with its marks; Dispatch.Machine has
-- its laws.
--
-- Lifecycle.Store: the rows of src/app/modules/ai/models.py and the session. `db` is what the
-- session sees, `committed` what a rollback returns to; `run_request` is `get_db_session`. The INSERTs
-- check primary keys, unique constraints and foreign keys, and raise `integrity`.
--
-- Lifecycle.Matrix: lifecycle/approval_matrix.py. Lifecycle.Tasks: lifecycle/tasks.py, T1 to T12.
-- Lifecycle.WorkItems: lifecycle/work_items.py, W1 to W6 with the derived W2 and W5.
-- Lifecycle.Idempotency: lifecycle/idempotency.py. Lifecycle.Declarations:
-- lifecycle/declarations.py. Lifecycle.Signals: lifecycle/service.py, the adapters S1 to S14, with
-- lifecycle/effectors/task_generation.py. Lifecycle.Reactor: lifecycle/reactor.py, in Event, Outbox,
-- Wake and Handle. Lifecycle.Reconciliation.Drain: lifecycle/reconciliation.py. Every function keeps
-- its name, without a leading underscore.
--
-- Lifecycle.Transitions, Lifecycle.Derivations, Lifecycle.Delivery: what is proved of tasks, of work
-- items, and of signals as requests. `TaskOp`, `WorkItemOp` and `Signal` are the requests as data;
-- `target`, `may_decide`, `effect` are the independent description of what they do. The other modules
-- of Lifecycle.Reactor are what is proved of webhooks.
--
-- Json: Python's JSON values. Json.Value.set, merge, without are the operations of a dict.
--
-- Memory: tools/lifecycle/memory.py. Shape has the typed memory, Codec its dump and its validation as
-- pydantic does them, Store its place in the data of a run and tools/lifecycle/corrections.py; RoundTrip
-- and Counting are what is proved.
--
-- Flow: Rule and Resolver are flow_resolver.py, Predicates is flow_predicates.py; Targets, Endings and
-- Errors are what is proved of `resolve_next`.
--
-- Executors: Registry is executors/registry.py and executors/binding.py, Coverage is
-- executors/coverage.py, Bodies the memory that executors/bootstrap.py writes; Laws and Progress are what
-- is proved.
--
-- Runtime: runtime_deterministic.py. State has the rows of one run as `World`, Turns what comes from
-- outside in an iteration, Status `_mark_running`, `_mark_paused`, `_terminate` and service.py's
-- `cancel_run`, Bookkeeping `_read_state` and `_write_state`, Setup and Node `_execute_node`, Loop the
-- loop. Frames, Hangs, Ends, Kept, Trail, Walk, Dispatches and Tended are what is proved.
--
-- Supervisor: src/app/modules/ai/supervisor.py. State is the registry, with a heap for the futures, and
-- its operations, Calls any sequence of them; Heap, Kept, Futures and Ended are what is proved.
--
-- Checkpoints: executors/lifecycle_manual_patches.py. Payloads are the operators' payloads with their
-- validation, Patches the memory patches, Intakes what the checkpoints show; Budget, Curated and Reviews
-- are what is proved.
--
-- StopConditions.Rules: src/app/modules/ai/stop_conditions.py; StopConditions.Priority has its laws.
--
-- How they interact:
-- A signal adapter first records its idempotency key, then calls one transition, draws a
-- correlation id where it must, puts auxiliary rows into the outbox when an engine is configured, and
-- may advance the parent work item. With an engine the transition asks it to change the status, and
-- the row's status is left to the engine, whose webhook the reactor handles: it writes the outbox
-- row's table, then the status, drops the signal's context, wakes the dispatch that waits for the
-- correlation id, and fires W2 or W5.
--
-- The deterministic loop reads its place from the run's memory, asks the resolver, inserts a step and a
-- pending dispatch, calls the executor, waits where the executor has only sent the dispatch off, commits
-- the envelope to both rows, merges the memory patch and writes its place. A wake-up of the reactor or
-- another delivery ends the wait; `cancel_run` may end the run at any time. All of that is an `Event`, a
-- `Reply` or a `Wait` of the iteration's `Turn`. A call or a wait that never ends is among them: the
-- iteration then hangs and the loop does not return.
--
-- SHA-256 over the canonical JSON, the UUID of a name, the generator of ids and the engine's
-- `create_item` are parameters, fields of `Ctx` and `EngineClient`, and so is the engine's
-- `get_item_state`. pydantic's conversions to `int` and `bool` are the fields of `Lax`. Ids and times are
-- numbers. A request runs alone: the rows that it reads are locked by `SELECT ... FOR UPDATE`.
-- Only the deterministic loop needs fuel, one unit for an iteration: an agent without a budget may run
-- for ever, and with a budget of n steps n + 1 units are enough where no iteration hangs. The other
-- loops are structural.
--
-- Not modelled: the GitHub checks of S10 to S14 (the deployment has no GitHub client), the effectors
-- that the reactor fires (it has no registry), the bodies of the executors but for the memory that they
-- write, the entries of the trace, the supervisor's tasks and events, a call of the supervisor or of the
-- database that is itself cancelled, an outbox row whose payload lacks a field (no writer of the program
-- makes one, and the payload is typed), budgets below zero, digits other than ASCII in a rule, the loop
-- of an agent whose policy is an LLM, logging, HTTP and the LLM. A query without an order is answered in
-- the order of the table.
pub mod Prelude
pub mod Enums
pub mod Json
pub mod Memory
pub mod Flow
pub mod Executors
pub mod Runtime
pub mod Supervisor
pub mod Checkpoints
pub mod Dispatch
pub mod Lifecycle
pub mod StopConditions

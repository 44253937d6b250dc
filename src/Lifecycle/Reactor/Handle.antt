-- ===== src/Lifecycle/Reactor/Handle.antt =====
-- src/app/modules/ai/lifecycle/reactor.py: the handler, for a deployment without effectors.
use carestechs_agent_orchest.Prelude.{
  ℕ, String, Bool, false, ◌||◌, Option, none, some, str_eq, gets, pure, when, if_some,
  if◌then◌else◌, ◌>>=◌, ◌>>◌,
}
use carestechs_agent_orchest.Lifecycle.Store.{Session, Ctx, Action}
use carestechs_agent_orchest.Lifecycle.WorkItems.{
  maybe_advance_to_in_progress, maybe_advance_to_ready,
}
use carestechs_agent_orchest.Lifecycle.Reactor.Event.{
  WebhookEvent, webhook_correlation_id, task_of_item, Workflow, infer_workflow_from_item,
  update_status_cache,
}
use carestechs_agent_orchest.Lifecycle.Reactor.Outbox.{materialize_aux, consume_correlation_by_id}
use carestechs_agent_orchest.Lifecycle.Reactor.Wake.{wake_dispatch}

-- The derivations of the reactor are called without an engine.
abbrev pub without_engine : Ctx → Ctx
without_engine ctx = record ctx { engine = none }

-- `to_status == TaskStatus.APPROVED.value`, and `to_status in _TASK_TERMINAL`
abbrev pub is_approval : Option String → Bool
is_approval none = false
is_approval (some to) = str_eq to "approved"

abbrev pub is_terminal_text : Option String → Bool
is_terminal_text none = false
is_terminal_text (some to) = str_eq to "done" || str_eq to "deferred"

-- The workflow that the id names, or else the one that the tables tell.
abbrev pub resolve : Option Workflow → Option Workflow → Option Workflow
resolve (some workflow) inferred = some workflow
resolve none inferred = inferred

module _ (ctx : Ctx) where
  -- `_handle_task_transition`
  unfoldable pub handle_task_transition : ℕ → Option String → Action Unit
  handle_task_transition item to_status = do
    found ← gets (λ (s : Session). task_of_item item s.db)
    if_some found (λ task.
        if is_approval to_status
        then (do maybe_advance_to_in_progress (without_engine ctx) task.work_item_id none; pure tt)
        else if is_terminal_text to_status
        then (do maybe_advance_to_ready (without_engine ctx) task.work_item_id none; pure tt)
        else pure tt)

  -- The derivations at the end.
  unfoldable pub derive : Workflow → WebhookEvent → Action Unit
  derive Workflow.task_workflow event = handle_task_transition event.item_id event.to_status
  derive Workflow.work_item_workflow event = pure tt
  derive Workflow.other_workflow event = pure tt

  -- What follows once the workflow and the correlation id are known.
  unfoldable pub react_with : (supervised : Bool) → Workflow → WebhookEvent → Option ℕ → Action Unit
  react_with supervised workflow event corr = do
    if_some corr materialize_aux
    update_status_cache ctx workflow event
    if_some corr consume_correlation_by_id
    if_some corr (λ c. when supervised (wake_dispatch ctx c event))
    derive workflow event

  unfoldable pub react : (supervised : Bool) → Workflow → WebhookEvent → Action Unit
  unfolding react_with
  react supervised workflow event =
      react_with supervised workflow event (webhook_correlation_id event)

  -- `handle_transition`, with `registry` null. The mapping of workflow ids may be missing.
  unfoldable pub handle_transition :
      (names : ℕ → Option Workflow) (supervised : Bool) → WebhookEvent → Action Unit
  handle_transition names supervised event = do
    inferred ← gets (λ (s : Session). infer_workflow_from_item event.item_id s.db)
    if_some (resolve (names event.workflow_id) inferred)
        (λ workflow. react supervised workflow event)

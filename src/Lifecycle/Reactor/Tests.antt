-- ===== src/Lifecycle/Reactor/Tests.antt =====
-- A webhook that reports the approval of a plan: the outbox row becomes an approval, the cached
-- status changes and the waiting dispatch is woken, once.
use carestechs_agent_orchest.Prelude.{◌≡◌, refl, true, none, some, [], ◌∷◌, ok, find, update, ◌>>◌}
use carestechs_agent_orchest.Enums.Lifecycle.{
  TaskStatus, parse_task_status, ActorRole, ApprovalStage, ApprovalDecision,
}
use carestechs_agent_orchest.Enums.Runtime.{DispatchState, DispatchMode}
use carestechs_agent_orchest.Json.Value.{text, end, field}
use carestechs_agent_orchest.Dispatch.Row.{Dispatch, mark_completed}
use carestechs_agent_orchest.Lifecycle.Store.{Approval, AuxPayload, Session, find_task}
use carestechs_agent_orchest.Lifecycle.Signals.{enqueue_aux}
use carestechs_agent_orchest.Lifecycle.Fixtures.{ctx, engine_ctx, task, db, session}
use carestechs_agent_orchest.Lifecycle.Reactor.Event.{
  WebhookEvent, webhook_correlation_id, Workflow, infer_workflow_from_item, task_of_item,
  cache_task_status, update_status_cache,
}
use carestechs_agent_orchest.Lifecycle.Reactor.Outbox.{
  AuxRow, build_aux_row, insert_aux_row, materialize_aux, consume_correlation_by_id,
}
use carestechs_agent_orchest.Lifecycle.Reactor.Wake.{awaits, wake_dispatch}
use carestechs_agent_orchest.Lifecycle.Reactor.Handle.{
  derive, handle_task_transition, react_with, react, handle_transition,
}
use carestechs_agent_orchest.Lifecycle.Reactor.Settled.{is_cached}
use carestechs_agent_orchest.Lifecycle.Reactor.Redelivery.{handle_transition-again}
use carestechs_agent_orchest.Lifecycle.Reactor.Cache.{
  react-is_cached, aux_payload, aux_task, is_new_row, enqueue-materialize,
}

abbrev approved : Approval
approved = record {
  task_id = 8;
  stage = ApprovalStage.plan;
  decision = ApprovalDecision.approve;
  decided_by = "eve";
  decided_by_role = ActorRole.admin;
  feedback = none;
}

abbrev waiting : Dispatch
waiting = record {
  dispatch_id = 1;
  step_id = 2;
  run_id = 3;
  executor_ref = "engine:task";
  mode = DispatchMode.engine;
  state = DispatchState.dispatched;
  intake = field "correlation_id" (text "id") end;
  result = none;
  outcome = none;
  detail = none;
  started_at = 4;
  dispatched_at = some 5;
  finished_at = none;
}

-- Task 8 mirrors the engine's item 44.
abbrev mirrored : Session
mirrored = record session {
  db = record db {
    tasks = record (task 8 TaskStatus.plan_review) { engine_item_id = some 44 } ∷ [];
    aux_writes =
        record {
          correlation_id = 60;
          signal_name = "approve-plan";
          entity_type = "task";
          entity_id = 8;
          payload =
              AuxPayload.approval ApprovalStage.plan ApprovalDecision.approve "eve" ActorRole.admin
                none;
        }
        ∷ [];
    dispatches = waiting ∷ [];
  };
}

abbrev plan_approved : WebhookEvent
plan_approved = record {
  workflow_id = 7;
  item_id = 44;
  from_status = some "plan_review";
  to_status = some "implementing";
  data_correlation_id = some 60;
  correlation_id = none;
}

handled : (handle_transition ctx (λ id. none) true plan_approved mirrored).0 ≡ ok tt
unfolding handle_transition infer_workflow_from_item task_of_item react_with react find
    webhook_correlation_id materialize_aux build_aux_row insert_aux_row find_task
    update_status_cache cache_task_status parse_task_status consume_correlation_by_id wake_dispatch
    awaits mark_completed derive handle_task_transition update
handled = refl

handle_transition-again_example :
    let s' = (handle_transition ctx (λ id. none) true plan_approved mirrored).1 in
    handle_transition (record ctx { now = 90 }) (λ id. none) true plan_approved s' ≡ (ok tt, s')
handle_transition-again_example =
    handle_transition-again ctx 90 (λ id. none) true plan_approved mirrored handled

reacted : (react ctx true Workflow.task_workflow plan_approved mirrored).0 ≡ ok tt
unfolding task_of_item react_with react find webhook_correlation_id materialize_aux build_aux_row
    insert_aux_row find_task update_status_cache cache_task_status parse_task_status
    consume_correlation_by_id wake_dispatch awaits mark_completed derive handle_task_transition
    update
reacted = refl

react-is_cached_example :
    is_cached Workflow.task_workflow 44
      (some "implementing")
      (react ctx true Workflow.task_workflow plan_approved mirrored).1.db
    ≡ true
react-is_cached_example =
    react-is_cached ctx true Workflow.task_workflow plan_approved mirrored reacted

enqueue-materialize_example :
    (enqueue_aux engine_ctx 61 "approve-plan" 8 (
          AuxPayload.approval ApprovalStage.plan ApprovalDecision.approve "eve" ActorRole.admin
            none)
        >> materialize_aux 61)
      mirrored
    ≡ insert_aux_row (AuxRow.approval approved) mirrored
unfolding aux_payload aux_task is_new_row find insert_aux_row find_task
enqueue-materialize_example =
    enqueue-materialize engine_ctx (record { create_item = λ kind title ref. some 9 }) 61
      "approve-plan" (AuxRow.approval approved) mirrored refl refl refl refl

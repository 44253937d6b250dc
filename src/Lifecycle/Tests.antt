-- ===== src/Lifecycle/Tests.antt =====
-- The laws of the lifecycle at a small deployment.
use carestechs_agent_orchest.Prelude.{
  ◌≡◌, refl, true, false, none, some, [], ◌∷◌, ok, err, conflict, arith, find, ◌⊎◌, update, any,
  count, not_found, if◌then◌else◌,
}
use carestechs_agent_orchest.Enums.Lifecycle.{
  TaskStatus, task_status_value, WorkItemStatus, work_item_status_value, ActorRole,
}
use carestechs_agent_orchest.Lifecycle.Store.{
  Approval, Session, commit, find_task, find_work_item, is_work_item,
}
use carestechs_agent_orchest.Lifecycle.Declarations.{
  task_transitions, work_item_transitions, Follows, declares,
}
use carestechs_agent_orchest.Lifecycle.Tasks.{approve_review}
use carestechs_agent_orchest.Lifecycle.Signals.{lock_work_item_signal, guarded_work_item_signal}
use carestechs_agent_orchest.Lifecycle.Idempotency.{check_and_record}
use carestechs_agent_orchest.Lifecycle.WorkItems.{unlock_work_item, lock_work_item}
use carestechs_agent_orchest.Lifecycle.Derivations.Requests.{
  WorkItemOp, administer, administer-answer, administer-effect, administer-declares, readministered,
  administered, source_status,
}
use carestechs_agent_orchest.Lifecycle.Derivations.Derived.{
  is_ready, all_finished, advance_to_ready-answer, advance_to_ready-again,
  advance_to_in_progress-again, answer_again,
}
use carestechs_agent_orchest.Lifecycle.Delivery.Requests.{Signal, handle, deliver, signal_key}
use carestechs_agent_orchest.Lifecycle.Delivery.Keys.{replay, is_known}
use carestechs_agent_orchest.Lifecycle.Delivery.Again.{deliver_twice}
use carestechs_agent_orchest.Lifecycle.Delivery.Locked.{has_status}
use carestechs_agent_orchest.Lifecycle.Delivery.Forever.{deliver_all, second_lock_is_final}
use carestechs_agent_orchest.Lifecycle.WorkItems.{
  with_status, maybe_advance_to_ready, maybe_advance_to_in_progress,
}
use carestechs_agent_orchest.Lifecycle.Transitions.Operations.{
  TaskOp, perform, answer, gives_reason, target, may_decide, settled,
}
use carestechs_agent_orchest.Lifecycle.Transitions.Answers.{perform-answer}
use carestechs_agent_orchest.Lifecycle.Transitions.Effects.{perform-effect, effect, outcome}
use carestechs_agent_orchest.Lifecycle.Transitions.Workflow.{
  perform-Follows, perform-engine_status, perform-frame, perform-terminal,
}
use carestechs_agent_orchest.Lifecycle.Fixtures.{ctx, engine_ctx, work_item, task, db, session}

abbrev review : TaskOp
review = TaskOp.review_approval "eve" ActorRole.admin true none false

abbrev defer_it : TaskOp
defer_it = TaskOp.defer "ada" none

perform-answer_example :
    (perform ctx 5 review session).0 ≡ ok (record (task 5 TaskStatus.done) { updated_at = 70 })
unfolding answer gives_reason find_task find target may_decide settled perform
perform-answer_example = perform-answer ctx 5 session review

perform-effect_example :
    (perform ctx 7 defer_it session).1.db
    ≡ outcome (perform ctx 7 defer_it session).0 (effect ctx 7 defer_it db) db
perform-effect_example = perform-effect ctx 7 session defer_it

-- The review of task 5 is accepted; with an engine its status is left to the engine.
reviewed :
    (perform ctx 5 review session).0 ≡ ok (record (task 5 TaskStatus.done) { updated_at = 70 })
unfolding perform approve_review find_task find update
reviewed = refl

reviewed_by_engine : (perform engine_ctx 5 review session).0 ≡ ok (task 5 TaskStatus.impl_review)
unfolding perform approve_review find_task find update
reviewed_by_engine = refl

perform-Follows_example : Follows task_transitions "impl_review" "done"
unfolding find_task find task_status_value
perform-Follows_example =
    perform-Follows ctx 5 review session (task 5 TaskStatus.impl_review) refl
      (record (task 5 TaskStatus.done) { updated_at = 70 }) refl reviewed

perform-engine_status_example : TaskStatus.impl_review ≡ TaskStatus.impl_review
unfolding find_task find
perform-engine_status_example =
    perform-engine_status engine_ctx 5 review session (task 5 TaskStatus.impl_review) refl
      (task 5 TaskStatus.impl_review) (record { create_item = λ kind title ref. some 9 }) refl
      reviewed_by_engine

perform-frame_example :
    let new = (perform ctx 5 review session).1.db in
    (find_task 7 new ≡ find_task 7 db)
    × (new.work_items ≡ db.work_items)
    × (new.plans ≡ db.plans)
    × (new.implementations ≡ db.implementations)
    × ((new.approvals ≡ db.approvals) ⊎ ((a : Approval) × (new.approvals ≡ a ∷ db.approvals)))
perform-frame_example = perform-frame ctx 5 7 review session (ground arith)

perform-terminal_example :
    ((perform ctx 6 defer_it session).0 ≡ err conflict)
    × ((perform ctx 6 defer_it session).1.db ≡ db)
unfolding find_task find gives_reason
perform-terminal_example =
    perform-terminal ctx 6 defer_it session (task 6 TaskStatus.done) refl refl

administer-answer_example :
    (administer ctx 2 "ada" none WorkItemOp.unlock session).0
    ≡ ok (record (work_item 2 WorkItemStatus.in_progress) { updated_at = 70 })
unfolding find_work_item find source_status administered
administer-answer_example = administer-answer ctx 2 "ada" none session WorkItemOp.unlock

administer-effect_example :
    (administer ctx 1 "ada" none WorkItemOp.close session).1.db
    ≡ elim (administer ctx 1 "ada" none WorkItemOp.close session).0 [
      | ok _ ↦ record db { work_items = readministered ctx 1 "ada" WorkItemOp.close db.work_items }
      | err _ ↦ db
    ]
administer-effect_example = administer-effect ctx 1 "ada" none session WorkItemOp.close

unlocked :
    (administer ctx 2 "ada" none WorkItemOp.unlock session).0
    ≡ ok (record (work_item 2 WorkItemStatus.in_progress) { updated_at = 70 })
unfolding administer unlock_work_item find_work_item find update
unlocked = refl

administer-declares_example : declares work_item_transitions "locked" "in_progress" ≡ true
unfolding find_work_item find work_item_status_value
administer-declares_example =
    administer-declares ctx 2 "ada" none session WorkItemOp.unlock
      (work_item 2 WorkItemStatus.locked)
      (record (work_item 2 WorkItemStatus.in_progress) { updated_at = 70 }) refl refl unlocked

-- Two of the three tasks are not finished, so W5 does not fire; it does where the one task is done.
not_ready : (maybe_advance_to_ready ctx 1 none session).0 ≡ ok false
unfolding maybe_advance_to_ready find_work_item find count
not_ready = refl

abbrev finished : Session
finished = record session { db = record db { tasks = task 6 TaskStatus.done ∷ [] } }

advance_to_ready-answer_example :
    ((maybe_advance_to_ready ctx 1 none finished).0 ≡ ok true)
    × ((maybe_advance_to_ready ctx 1 none finished).1.db ≡ record finished.db {
      work_items = update (is_work_item 1) (with_status ctx.now WorkItemStatus.ready) db.work_items;
    })
unfolding find_work_item find is_ready all_finished any
advance_to_ready-answer_example = advance_to_ready-answer ctx 1 none finished

advance_to_ready-again_example :
    let first = maybe_advance_to_ready ctx 1 none session in
    maybe_advance_to_ready ctx 1 none first.1 ≡ (answer_again first.0, first.1)
advance_to_ready-again_example = advance_to_ready-again ctx 1 none none session

advance_to_in_progress-again_example :
    let first = maybe_advance_to_in_progress ctx 1 none session in
    maybe_advance_to_in_progress ctx 1 none first.1 ≡ (answer_again first.0, first.1)
advance_to_in_progress-again_example = advance_to_in_progress-again ctx 1 none none session

-- The key of the unlock signal is in the table, so one more changes nothing.
replay_example : handle ctx (Signal.unlock 2 "ada") session ≡ (ok false, session)
unfolding signal_key find_work_item find is_known
replay_example =
    replay ctx session
      (record {
        key = "unlock-work-item";
        entity_id = 2;
        signal_name = "unlock-work-item";
        recorded_at = 3;
      })
      (Signal.unlock 2 "ada") refl

-- Locking work item 1 is new.
locked : (deliver ctx (Signal.lock 1 none "ada") session).0 ≡ ok true
unfolding deliver handle lock_work_item_signal guarded_work_item_signal check_and_record
    lock_work_item find_work_item find update commit
locked = refl

deliver_twice_example :
    let s' = (deliver ctx (Signal.lock 1 none "ada") session).1 in
    deliver (record ctx { now = 90 }) (Signal.lock 1 none "ada") s'
    ≡ ((if is_known (Signal.lock 1 none "ada") s'.db then ok false else err not_found), s')
deliver_twice_example = deliver_twice ctx 90 (Signal.lock 1 none "ada") session true locked

second_lock_is_final_example :
    has_status 2 WorkItemStatus.locked
      (deliver_all ctx
        ((80, Signal.unlock 2 "ada")
          ∷ (90, Signal.lock 2 none "ada")
          ∷ (95, Signal.unlock 2 "eve")
          ∷ [])
        session).db.work_items
    ≡ true
unfolding signal_key has_status find
second_lock_is_final_example =
    second_lock_is_final ctx 2 "ada"
      ((80, Signal.unlock 2 "ada")
        ∷ (90, Signal.lock 2 none "ada")
        ∷ (95, Signal.unlock 2 "eve")
        ∷ [])
      session refl refl refl

-- ===== src/Lifecycle/Reactor/Event.antt =====
-- src/app/modules/ai/lifecycle/reactor.py: the webhook's body, the workflow that it belongs to, and
-- the write of the status that it reports.
use carestechs_agent_orchest.Prelude.{
  ℕ, String, Option, none, some, find, update, integrity, Bool, gets, or_raise, pure, ◌>>=◌,
}
use carestechs_agent_orchest.Enums.Lifecycle.{parse_task_status, parse_work_item_status}
use carestechs_agent_orchest.Lifecycle.Store.{
  Task, WorkItem, Db, Session, Ctx, Action, same_id, write,
}
use carestechs_agent_orchest.Lifecycle.Tasks
use carestechs_agent_orchest.Lifecycle.WorkItems

-- `LifecycleWebhookEvent` with its `data`.
pub record WebhookEvent : Type 0 where
  pub workflow_id : ℕ
  pub item_id : ℕ
  pub from_status : Option String
  pub to_status : Option String
  pub data_correlation_id : Option ℕ
  pub correlation_id : Option ℕ

-- `event.data.correlation_id or event.correlation_id`
unfoldable pub webhook_correlation_id : WebhookEvent → Option ℕ
webhook_correlation_id event = elim event.data_correlation_id [
  | some corr ↦ some corr
  | none ↦ event.correlation_id
]

-- The row with this `engine_item_id`, a unique column.
abbrev pub is_item_task : ℕ → Task → Bool
is_item_task item t = same_id t.engine_item_id (some item)

abbrev pub is_item_work_item : ℕ → WorkItem → Bool
is_item_work_item item w = same_id w.engine_item_id (some item)

unfoldable pub task_of_item : ℕ → Db → Option Task
task_of_item item db = find (is_item_task item) db.tasks

unfoldable pub work_item_of_item : ℕ → Db → Option WorkItem
work_item_of_item item db = find (is_item_work_item item) db.work_items

-- The names `work_item_workflow` and `task_workflow`, and any other.
pub data Workflow : Type 0 where
  task_workflow work_item_workflow other_workflow : Workflow

-- `_infer_workflow_from_item`
unfoldable pub infer_workflow_from_item : ℕ → Db → Option Workflow
infer_workflow_from_item item db = elim (task_of_item item db) [
  | some _ ↦ some Workflow.task_workflow
  | none ↦ elim (work_item_of_item item db) [
    | some _ ↦ some Workflow.work_item_workflow
    | none ↦ none
  ]
]

module _ (ctx : Ctx) where
  -- The status columns have CHECK constraints: a text that is no status raises at the flush.
  unfoldable pub cache_task_status : ℕ → String → Action Unit
  cache_task_status item to = do
    found ← gets (λ (s : Session). task_of_item item s.db)
    elim found [
      | none ↦ pure tt
      | some _ ↦ do
        status ← or_raise (parse_task_status to) integrity
        write (λ db. record db {
          tasks = update (is_item_task item) (Tasks.with_status ctx.now status) db.tasks;
        })
    ]

  unfoldable pub cache_work_item_status : ℕ → String → Action Unit
  cache_work_item_status item to = do
    found ← gets (λ (s : Session). work_item_of_item item s.db)
    elim found [
      | none ↦ pure tt
      | some _ ↦ do
        status ← or_raise (parse_work_item_status to) integrity
        write (λ db. record db {
          work_items =
              update (is_item_work_item item) (WorkItems.with_status ctx.now status) db.work_items;
        })
    ]

  -- By the workflow, when the event has a status.
  abbrev pub cache_status : Workflow → ℕ → Option String → Action Unit
  cache_status workflow item none = pure tt
  cache_status Workflow.task_workflow item (some to) = cache_task_status item to
  cache_status Workflow.work_item_workflow item (some to) = cache_work_item_status item to
  cache_status Workflow.other_workflow item (some to) = pure tt

  -- `_update_status_cache`
  unfoldable pub update_status_cache : Workflow → WebhookEvent → Action Unit
  update_status_cache workflow event = cache_status workflow event.item_id event.to_status

-- ===== src/Lifecycle/Store/State.antt =====
-- The SQLAlchemy session (src/app/core/database.py) and what a service function is handed.
use carestechs_agent_orchest.Prelude.{
  ℕ, suc, String, Bool, Option, List, ◌==◌, find, update, Exec, ok, err, modify, Result,
}
use carestechs_agent_orchest.Dispatch.Row.{Dispatch}
use carestechs_agent_orchest.Json.Value.{Fields}
use carestechs_agent_orchest.Lifecycle.Store.Rows.{
  WorkItem, Task, TaskAssignment, Approval, TaskPlan, TaskImplementation, LifecycleSignal, Payload,
  PendingSignalContext, PendingAuxWrite,
}

pub record Db : Type 0 where
  pub work_items : List WorkItem
  pub tasks : List Task
  pub assignments : List TaskAssignment
  pub approvals : List Approval
  pub plans : List TaskPlan
  pub implementations : List TaskImplementation
  pub signals : List LifecycleSignal
  pub contexts : List PendingSignalContext
  pub aux_writes : List PendingAuxWrite
  pub dispatches : List Dispatch

-- One `transition_item` request; with no correlation id given the caller draws a fresh one.
pub record EngineCall : Type 0 where
  pub item_id : ℕ
  pub to_status : String
  pub correlation_id : Option ℕ
  pub actor : String

-- `DispatchEnvelope`, without the columns of its row that are copied unchanged.
pub record Envelope : Type 0 where
  pub dispatch_id : ℕ
  pub run_id : ℕ
  pub result : Fields
  pub finished_at : ℕ
  pub correlation_id : ℕ
  pub transition_key : Option String

-- `db` is what the session sees, `committed` what a rollback returns to. Requests to the engine,
-- draws of ids and envelopes handed to the supervisor are not undone.
pub record Session : Type 0 where
  pub db : Db
  pub committed : Db
  pub calls : List EngineCall
  pub draws : ℕ
  pub woken : List Envelope

-- The flow engine is another service: `create_item` returns an id, or raises (`none`).
-- `transition_item` returns nothing, and what it raises is logged and dropped.
pub record EngineClient : Type 0 where
  pub create_item : ℕ → String → String → Option ℕ

-- What a request comes with: the time, the generator of ids, the engine client if one is
-- configured, SHA-256 over the canonical JSON of an entity, a signal name and a payload, the UUID
-- that is derived from a name, and the text of a UUID.
pub record Ctx : Type 0 where
  pub now : ℕ
  pub uuid : ℕ → ℕ
  pub engine : Option EngineClient
  pub digest : ℕ → String → Payload → String
  pub uuid5 : String → ℕ
  pub id_text : ℕ → String

abbrev pub Action : Type 0 → Type 0
Action A = Exec Session A

abbrev pub is_task : ℕ → Task → Bool
is_task id t = t.id == id

abbrev pub is_work_item : ℕ → WorkItem → Bool
is_work_item id w = w.id == id

-- The task, or the work item, with this id.
unfoldable pub find_task : ℕ → Db → Option Task
find_task id db = find (is_task id) db.tasks

unfoldable pub find_work_item : ℕ → Db → Option WorkItem
find_work_item id db = find (is_work_item id) db.work_items

-- The rows with this id are changed; `id` is a primary key, so there is one at most.
unfoldable pub update_task : ℕ → (Task → Task) → Db → Db
update_task id f db = record db { tasks = update (is_task id) f db.tasks }

unfoldable pub update_work_item : ℕ → (WorkItem → WorkItem) → Db → Db
update_work_item id f db = record db { work_items = update (is_work_item id) f db.work_items }

abbrev pub write : (Db → Db) → Action Unit
write f = modify (λ s. record s { db = f s.db })

-- `session.commit()`
unfoldable pub commit : Action Unit
commit = modify (λ s. record s { committed = s.db })

-- A default of `generate_uuid7` or `uuid4`: the next value of the generator.
unfoldable pub fresh : Ctx → Action ℕ
fresh ctx s = (ok (ctx.uuid s.draws), record s { draws = suc s.draws })

-- A request's end: `get_db_session` commits, or, when the handler raises, rolls back to what is
-- committed.
abbrev pub settle : {A : Type 0} → Result A × Session → Result A × Session
settle (ok a, s) = (ok a, record s { committed = s.db })
settle (err e, s) = (err e, record s { db = s.committed })

unfoldable pub run_request : {A : Type 0} → Action A → Action A
run_request m s = settle (m s)

-- ===== src/Lifecycle/Reconciliation/Drain.antt =====
-- src/app/modules/ai/lifecycle/reconciliation.py, for `since` null.
use carestechs_agent_orchest.Prelude.{
  ℕ, suc, String, Bool, true, false, not, Option, none, some, List, [], ◌∷◌, str_eq, remove, Error,
  integrity, engine_failure, Result, ok, err, pure, gets, or_raise, when, if◌then◌else◌, ◌>>=◌,
  ◌>>◌, ◌++◌,
}
use carestechs_agent_orchest.Lifecycle.Store.{
  PendingAuxWrite, Db, Session, Action, find_task, find_work_item, write,
}
use carestechs_agent_orchest.Lifecycle.Reactor.Outbox.{build_aux_row, insert_aux_row, is_pending}

-- `_RECONCILE_OUTCOMES`
pub data Outcome : Type 0 where
  materialized stale unknown : Outcome

-- `_SIGNAL_TARGET_STATE.get`: null for a rejection and for a name that is not there.
unfoldable pub signal_target_state : String → Option String
signal_target_state name =
    if str_eq name "approve-task"
    then some "assigning"
    else if str_eq name "assign-task"
    then some "planning"
    else if str_eq name "submit-plan"
    then some "plan_review"
    else if str_eq name "approve-plan"
    then some "implementing"
    else if str_eq name "submit-implementation"
    then some "impl_review"
    else if str_eq name "approve-review"
    then some "done"
    else if str_eq name "defer-task"
    then some "deferred"
    else none

pub record Report : Type 0 where
  pub scanned : ℕ
  pub materialized : ℕ
  pub skipped_stale : ℕ
  pub skipped_unknown : ℕ
  pub errors : List (ℕ × Error)

abbrev pub empty_report : Report
empty_report = record {
  scanned = 0;
  materialized = 0;
  skipped_stale = 0;
  skipped_unknown = 0;
  errors = [];
}

-- The engine's item of the row's entity, if both are there.
unfoldable pub engine_item : PendingAuxWrite → Db → Option ℕ
engine_item p db =
    if str_eq p.entity_type "task"
    then (elim (find_task p.entity_id db) [ none ↦ none | some t ↦ t.engine_item_id ])
    else elim (find_work_item p.entity_id db) [ none ↦ none | some w ↦ w.engine_item_id ]

-- `_apply`
unfoldable pub apply : PendingAuxWrite → Action Unit
apply p = do
  elim (build_aux_row p) [ none ↦ pure tt | some row ↦ insert_aux_row row ]
  write (λ db. record db { aux_writes = remove (is_pending p.correlation_id) db.aux_writes })

-- The counters of the report.
abbrev pub counted : Outcome → Report → Report
counted Outcome.materialized r = record r { materialized = suc r.materialized }
counted Outcome.stale r = record r { skipped_stale = suc r.skipped_stale }
counted Outcome.unknown r = record r { skipped_unknown = suc r.skipped_unknown }

abbrev pub scanned_one : Report → Report
scanned_one r = record r { scanned = suc r.scanned }

abbrev pub failed : PendingAuxWrite → Error → Report → Report
failed p e r = record r { errors = r.errors ++ (p.correlation_id, e) ∷ [] }

-- `except Exception`: a flush that raised has rolled the transaction back and left the session
-- unusable, so that its next use, at the latest the commit, raises out of the function.
abbrev pub ends_run : Error → Bool
ends_run Error.integrity = true
ends_run _ = false

-- The rest of an iteration, once the row has its answer; `rest` are the iterations after it.
abbrev pub conclude :
    PendingAuxWrite → (Report → Action Report) → Report → Result Outcome → Action Report
conclude p rest r (ok outcome) s = rest (counted outcome (scanned_one r)) s
conclude p rest r (err e) s =
    if ends_run e
    then (err integrity, record s { db = s.committed })
    else rest (failed p e (scanned_one r)) s

-- `engine.get_item_state` raises (`none`), or answers the state, or that there is no such item.
module _ (get_item_state : ℕ → Option (Option String)) (dry_run : Bool) where
  -- `_reconcile_one`
  unfoldable pub reconcile_one : PendingAuxWrite → Action Outcome
  unfolding signal_target_state
  reconcile_one p = do
    item ← gets (λ (s : Session). engine_item p s.db)
    elim item [
      | none ↦ pure Outcome.unknown
      | some item ↦ elim (signal_target_state p.signal_name) [
        | none ↦ do when (not dry_run) (apply p); pure Outcome.materialized
        | some target ↦ do
          state ← or_raise (get_item_state item) engine_failure
          elim state [
            | none ↦ pure Outcome.unknown
            | some state ↦
                if str_eq state target
                then (do when (not dry_run) (apply p); pure Outcome.materialized)
                else pure Outcome.stale
          ]
      ]
    ]

  -- The loop.
  unfoldable pub drain : List PendingAuxWrite → Report → Action Report
  unfolding reconcile_one
  drain [] r s = (ok r, s)
  drain (p ∷ ps) r s =
      let (answer, s') = reconcile_one p s in conclude p (λ r'. drain ps r') r answer s'

-- The rows in the order of `enqueued_at`; a table has its newest row first.
unfoldable pub by_age : List PendingAuxWrite → List PendingAuxWrite
by_age [] = []
by_age (p ∷ ps) = by_age ps ++ p ∷ []

-- `reconcile`
unfoldable pub reconcile : (ℕ → Option (Option String)) → Bool → Action Report
unfolding drain by_age
reconcile get_item_state dry_run s =
    let (answer, s') = drain get_item_state dry_run (by_age s.db.aux_writes) empty_report s in
    elim answer [
      | err e ↦ (err e, s')
      | ok r ↦ (ok r, if dry_run then s' else record s' { committed = s'.db })
    ]

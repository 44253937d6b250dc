-- ===== src/Lifecycle/Reconciliation/Tests.antt =====
-- An approval whose webhook never came, and a row whose task is not there.
use carestechs_agent_orchest.Prelude.{
  ℕ, ◌+◌, String, ◌≡◌, refl, true, false, Option, none, some, [], ◌∷◌, length, ok, find,
}
use carestechs_agent_orchest.Enums.Lifecycle.{
  TaskStatus, ActorRole, ApprovalStage, ApprovalDecision,
}
use carestechs_agent_orchest.Lifecycle.Store.{AuxPayload, PendingAuxWrite, Session, find_task}
use carestechs_agent_orchest.Lifecycle.Fixtures.{task, db, session}
use carestechs_agent_orchest.Lifecycle.Reactor.Outbox.{build_aux_row, insert_aux_row}
use carestechs_agent_orchest.Lifecycle.Reconciliation.Drain.{Report, engine_item, apply, reconcile}
use carestechs_agent_orchest.Lifecycle.Reconciliation.Report.{reconcile-counts, reconcile-dry_run}

abbrev pending : ℕ → ℕ → PendingAuxWrite
pending corr id = record {
  correlation_id = corr;
  signal_name = "approve-plan";
  entity_type = "task";
  entity_id = id;
  payload =
      AuxPayload.approval ApprovalStage.plan ApprovalDecision.approve "eve" ActorRole.admin none;
}

-- Task 8 mirrors the engine's item 44.
abbrev orphaned : Session
orphaned = record session {
  db = record db {
    tasks = record (task 8 TaskStatus.plan_review) { engine_item_id = some 44 } ∷ [];
    aux_writes = pending 60 8 ∷ pending 61 9 ∷ [];
  };
}

abbrev states : ℕ → Option (Option String)
states item = some (some "implementing")

abbrev expected : Report
expected = record {
  scanned = 2;
  materialized = 1;
  skipped_stale = 0;
  skipped_unknown = 1;
  errors = [];
}

reconciled : (reconcile states false orphaned).0 ≡ ok expected
unfolding reconcile engine_item find_task find apply build_aux_row insert_aux_row
reconciled = refl

reconcile-counts_example :
    (expected.scanned ≡ length orphaned.db.aux_writes)
    × (expected.materialized
          + expected.skipped_stale
          + expected.skipped_unknown
          + length expected.errors
        ≡ length orphaned.db.aux_writes)
reconcile-counts_example = reconcile-counts states false orphaned expected reconciled

reconcile-dry_run_example : reconcile states true orphaned ≡ (ok expected, orphaned)
reconcile-dry_run_example = reconcile-dry_run states orphaned expected reconciled

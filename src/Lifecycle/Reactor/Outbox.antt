-- ===== src/Lifecycle/Reactor/Outbox.antt =====
-- src/app/modules/ai/lifecycle/reactor.py: the outbox row and the signal context of a correlation id.
use carestechs_agent_orchest.Prelude.{
  ℕ, Bool, Option, none, some, ◌==◌, find, remove, gets, pure, ◌>>=◌, ◌>>◌,
}
use carestechs_agent_orchest.Lifecycle.Store.{
  Approval, TaskAssignment, TaskPlan, TaskImplementation, PendingAuxWrite, PendingSignalContext,
  AuxPayload, Session, Action, insert_approval, insert_assignment, insert_plan,
  insert_implementation, write,
}

-- The row that an outbox row stands for.
pub data AuxRow : Type 0 where
  approval : Approval → AuxRow
  assignment : TaskAssignment → AuxRow
  plan : TaskPlan → AuxRow
  implementation : TaskImplementation → AuxRow

unfoldable pub build_aux_row : PendingAuxWrite → Option AuxRow
build_aux_row pending = elim pending.payload [
  | AuxPayload.approval stage decision by role feedback ↦ some (
      AuxRow.approval (record {
        task_id = pending.entity_id;
        stage = stage;
        decision = decision;
        decided_by = by;
        decided_by_role = role;
        feedback = feedback;
      }))
  | AuxPayload.task_assignment kind assignee by ↦ some (
      AuxRow.assignment (record {
        task_id = pending.entity_id;
        assignee_type = kind;
        assignee_id = assignee;
        assigned_by = by;
        superseded_at = none;
      }))
  | AuxPayload.task_plan path sha by ↦ some (
      AuxRow.plan (record {
        task_id = pending.entity_id;
        plan_path = path;
        plan_sha = sha;
        submitted_by = by;
      }))
  | AuxPayload.task_implementation url sha summary by ↦ some (
      AuxRow.implementation (record {
        task_id = pending.entity_id;
        pr_url = url;
        commit_sha = sha;
        summary = summary;
        submitted_by = by;
      }))
  | AuxPayload.unknown _ ↦ none
]

unfoldable pub insert_aux_row : AuxRow → Action Unit
unfolding insert_approval insert_assignment insert_plan insert_implementation
insert_aux_row (AuxRow.approval a) = insert_approval a
insert_aux_row (AuxRow.assignment a) = insert_assignment a
insert_aux_row (AuxRow.plan p) = insert_plan p
insert_aux_row (AuxRow.implementation i) = insert_implementation i

abbrev pub is_pending : ℕ → PendingAuxWrite → Bool
is_pending corr p = p.correlation_id == corr

abbrev pub is_context : ℕ → PendingSignalContext → Bool
is_context corr c = c.correlation_id == corr

-- `_materialize_aux`
unfoldable pub materialize_aux : ℕ → Action Unit
materialize_aux corr = do
  pending ← gets (λ (s : Session). find (is_pending corr) s.db.aux_writes)
  elim pending [
    | none ↦ pure tt
    | some p ↦ do
      elim (build_aux_row p) [ none ↦ pure tt | some row ↦ insert_aux_row row ]
      write (λ db. record db { aux_writes = remove (is_pending corr) db.aux_writes })
  ]

-- `_consume_correlation_by_id`
unfoldable pub consume_correlation_by_id : ℕ → Action Unit
consume_correlation_by_id corr = do
  row ← gets (λ (s : Session). find (is_context corr) s.db.contexts)
  elim row [
    | none ↦ pure tt
    | some _ ↦ write (λ db. record db { contexts = remove (is_context corr) db.contexts })
  ]

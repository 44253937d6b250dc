-- ===== src/Lifecycle/Delivery/Frames.antt =====
-- What the transitions and the adapters leave alone: an invariant of the database and of what is
-- committed survives each action whose tables it does not speak of.
use carestechs_agent_orchest.Prelude.{
  ℕ, String, Bool, Option, none, some, List, ◌∷◌, keeps_rules, arith, Keeps, ◌≡◌, sym, subst,
}
use carestechs_agent_orchest.Lifecycle.Store.{
  Task, TaskAssignment, Approval, TaskPlan, TaskImplementation, PendingSignalContext,
  PendingAuxWrite, AuxPayload, Payload, Db, Session, Ctx, write, commit, fresh, send_transition,
  insert_approval, insert_assignment, insert_plan, insert_implementation, insert_context,
  insert_aux_write,
}
use carestechs_agent_orchest.Lifecycle.Tasks
use carestechs_agent_orchest.Lifecycle.Signals.{with_correlation, enqueue_aux}

-- The property does not speak of tasks and their auxiliary rows, nor of the outbox.
pub record IgnoresTasks (Q : Db → Type 0) : Type 0 where
  pub at_tasks : (db : Db) (x : List Task) → Q db → Q (record db { tasks = x })
  pub at_assignments :
      (db : Db) (x : List TaskAssignment) → Q db → Q (record db { assignments = x })
  pub at_approvals : (db : Db) (x : List Approval) → Q db → Q (record db { approvals = x })
  pub at_plans : (db : Db) (x : List TaskPlan) → Q db → Q (record db { plans = x })
  pub at_implementations :
      (db : Db) (x : List TaskImplementation) → Q db → Q (record db { implementations = x })
  pub at_contexts :
      (db : Db) (x : List PendingSignalContext) → Q db → Q (record db { contexts = x })
  pub at_aux_writes : (db : Db) (x : List PendingAuxWrite) → Q db → Q (record db { aux_writes = x })

-- One property of what the session sees, and one of what is committed.
pub record Both (Q R : Db → Type 0) (s : Session) : Type 0 where
  pub seen : Q s.db
  pub kept : R s.committed

module _ (ctx : Ctx) (item : Option ℕ) (to : String) (corr : Option ℕ) (actor : String)
    (s : Session) where
  sent-db : (send_transition ctx item to corr actor s).1.db ≡ s.db
  unfolding send_transition
  sent-db = ground arith

  sent-committed : (send_transition ctx item to corr actor s).1.committed ≡ s.committed
  unfolding send_transition
  sent-committed = ground arith

module _ {Q R : Db → Type 0} where
  pub commit-Keeps : ((db : Db) → Q db → R db) → Keeps (Both Q R) commit
  unfolding commit
  commit-Keeps demote = record { at = λ s h. record { seen = h.seen; kept = demote s.db h.seen } }

  pub fresh-Keeps : (ctx : Ctx) → Keeps (Both Q R) (fresh ctx)
  unfolding fresh
  fresh-Keeps ctx = record { at = λ s h. record { seen = h.seen; kept = h.kept } }

  pub send_transition-Keeps :
      (ctx : Ctx) (item : Option ℕ) (to : String) (corr : Option ℕ) (actor : String)
      → Keeps (Both Q R) (send_transition ctx item to corr actor)
  unfolding send_transition
  send_transition-Keeps ctx item to corr actor = record {
    at = λ s h. record {
      seen = subst Q (sym (sent-db ctx item to corr actor s)) h.seen;
      kept = subst R (sym (sent-committed ctx item to corr actor s)) h.kept;
    };
  }

module _ {Q R : Db → Type 0} (free : IgnoresTasks Q) where
  pub write_tasks-Keeps :
      (f : Db → List Task) → Keeps (Both Q R) (write (λ db. record db { tasks = f db }))
  write_tasks-Keeps f = record {
    at = λ s h. record { seen = free.at_tasks s.db (f s.db) h.seen; kept = h.kept };
  }

  pub write_assignments-Keeps :
      (f : Db → List TaskAssignment)
      → Keeps (Both Q R) (write (λ db. record db { assignments = f db }))
  write_assignments-Keeps f = record {
    at = λ s h. record { seen = free.at_assignments s.db (f s.db) h.seen; kept = h.kept };
  }

  pub write_approvals-Keeps :
      (f : Db → List Approval) → Keeps (Both Q R) (write (λ db. record db { approvals = f db }))
  write_approvals-Keeps f = record {
    at = λ s h. record { seen = free.at_approvals s.db (f s.db) h.seen; kept = h.kept };
  }

  pub write_plans-Keeps :
      (f : Db → List TaskPlan) → Keeps (Both Q R) (write (λ db. record db { plans = f db }))
  write_plans-Keeps f = record {
    at = λ s h. record { seen = free.at_plans s.db (f s.db) h.seen; kept = h.kept };
  }

  pub write_implementations-Keeps :
      (f : Db → List TaskImplementation)
      → Keeps (Both Q R) (write (λ db. record db { implementations = f db }))
  write_implementations-Keeps f = record {
    at = λ s h. record { seen = free.at_implementations s.db (f s.db) h.seen; kept = h.kept };
  }

  pub write_contexts-Keeps :
      (f : Db → List PendingSignalContext)
      → Keeps (Both Q R) (write (λ db. record db { contexts = f db }))
  write_contexts-Keeps f = record {
    at = λ s h. record { seen = free.at_contexts s.db (f s.db) h.seen; kept = h.kept };
  }

  pub write_aux_writes-Keeps :
      (f : Db → List PendingAuxWrite)
      → Keeps (Both Q R) (write (λ db. record db { aux_writes = f db }))
  write_aux_writes-Keeps f = record {
    at = λ s h. record { seen = free.at_aux_writes s.db (f s.db) h.seen; kept = h.kept };
  }

  pub ruleset write_rules = (
    keeps_rules, fresh-Keeps, send_transition-Keeps, write_tasks-Keeps, write_assignments-Keeps,
    write_approvals-Keeps, write_plans-Keeps, write_implementations-Keeps, write_contexts-Keeps,
    write_aux_writes-Keeps,
  )

  pub insert_approval-Keeps : (a : Approval) → Keeps (Both Q R) (insert_approval a)
  unfolding insert_approval
  insert_approval-Keeps a = search write_rules

  pub insert_assignment-Keeps : (a : TaskAssignment) → Keeps (Both Q R) (insert_assignment a)
  unfolding insert_assignment
  insert_assignment-Keeps a = search write_rules

  pub insert_plan-Keeps : (a : TaskPlan) → Keeps (Both Q R) (insert_plan a)
  unfolding insert_plan
  insert_plan-Keeps a = search write_rules

  pub insert_implementation-Keeps :
      (a : TaskImplementation) → Keeps (Both Q R) (insert_implementation a)
  unfolding insert_implementation
  insert_implementation-Keeps a = search write_rules

  pub insert_context-Keeps : (a : PendingSignalContext) → Keeps (Both Q R) (insert_context a)
  unfolding insert_context
  insert_context-Keeps a = search write_rules

  pub insert_aux_write-Keeps : (a : PendingAuxWrite) → Keeps (Both Q R) (insert_aux_write a)
  unfolding insert_aux_write
  insert_aux_write-Keeps a = search write_rules

  pub with_correlation-Keeps :
      (ctx : Ctx) (name : String) (payload : Payload)
      → Keeps (Both Q R) (with_correlation ctx name payload)
  unfolding with_correlation
  with_correlation-Keeps ctx name payload = search (keeps_rules, fresh-Keeps, insert_context-Keeps)

  pub enqueue_aux-Keeps :
      (ctx : Ctx) (corr : ℕ) (name : String) (id : ℕ) (payload : AuxPayload)
      → Keeps (Both Q R) (enqueue_aux ctx corr name id payload)
  unfolding enqueue_aux
  enqueue_aux-Keeps ctx corr name id payload = search (keeps_rules, insert_aux_write-Keeps)

  pub load_task-Keeps : (id : ℕ) → Keeps (Both Q R) (Tasks.load_task id)
  unfolding Tasks.load_task
  load_task-Keeps id = search keeps_rules

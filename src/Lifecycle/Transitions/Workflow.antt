-- ===== src/Lifecycle/Transitions/Workflow.antt =====
-- Task transitions against the workflow of src/app/modules/ai/lifecycle/declarations.py, and what
-- they leave alone.
use carestechs_agent_orchest.Prelude.{
  ℕ, ◌≡◌, ◌≢◌, refl, sym, ◌∙◌, if◌then◌else◌, Result-cases, ap, subst, true, false, none, some, ok,
  err, conflict, validation, arith, find, find-update_other, List, Option-cases, ◌⊎◌, inl, inr, ◌∷◌,
  ◌++◌,
}
use carestechs_agent_orchest.Enums.Lifecycle.{TaskStatus, task_status_value}
use carestechs_agent_orchest.Lifecycle.Store.{
  Task, Approval, Ctx, EngineClient, Session, find_task, is_task,
}
use carestechs_agent_orchest.Lifecycle.Tasks.{with_status, touched, is_terminal}
use carestechs_agent_orchest.Lifecycle.Declarations.{
  declares, task_transitions, Follows, stay, step,
}
use carestechs_agent_orchest.Lifecycle.Transitions.Operations.{
  TaskOp, approve, reject, assign, plan, plan_approval, plan_rejection, implementation,
  review_approval, review_rejection, defer, target, perform, answer, settled, gives_reason,
}
use carestechs_agent_orchest.Lifecycle.Transitions.Answers.{perform-answer}
use carestechs_agent_orchest.Lifecycle.Transitions.Effects.{
  perform-effect, effect, rewritten, decision, set_status,
}

abbrev FollowsTask : TaskStatus → TaskStatus → Type 0
FollowsTask a b = Follows task_transitions (task_status_value a) (task_status_value b)

lands : (a : TaskStatus) {b c : TaskStatus} → some b ≡ some c → FollowsTask a b → FollowsTask a c
lands a {b} {c} h f = let e : b ≡ c = cc in subst (λ x. FollowsTask a x) e f

-- Every entry of the design's table is a run of declared edges: two for an approval, none for a
-- rejected proposal, one for all others.
target-Follows : (op : TaskOp) (a b : TaskStatus) → target op a ≡ some b → FollowsTask a b
unfolding target declares task_transitions task_status_value
target-Follows (approve _ _ _) TaskStatus.proposed b h =
    lands TaskStatus.proposed h (step {b = "approved"} refl (step refl stay))
target-Follows (reject _ _) TaskStatus.proposed b h = lands TaskStatus.proposed h stay
target-Follows (assign _ _ _ _ _) TaskStatus.assigning b h =
    lands TaskStatus.assigning h (step refl stay)
target-Follows (plan _ _) TaskStatus.planning b h = lands TaskStatus.planning h (step refl stay)
target-Follows (plan_approval _ _ _ _ _) TaskStatus.plan_review b h =
    lands TaskStatus.plan_review h (step refl stay)
target-Follows (plan_rejection _ _ _ _ _) TaskStatus.plan_review b h =
    lands TaskStatus.plan_review h (step refl stay)
target-Follows (implementation _ _) TaskStatus.implementing b h =
    lands TaskStatus.implementing h (step refl stay)
target-Follows (review_approval _ _ _ _ _) TaskStatus.impl_review b h =
    lands TaskStatus.impl_review h (step refl stay)
target-Follows (review_rejection _ _ _ _ _) TaskStatus.impl_review b h =
    lands TaskStatus.impl_review h (step refl stay)
target-Follows (defer _ _) TaskStatus.done b h = cc
target-Follows (defer _ _) TaskStatus.deferred b h = cc
target-Follows (defer _ _) TaskStatus.proposed b h = lands TaskStatus.proposed h (step refl stay)
target-Follows (defer _ _) TaskStatus.approved b h = lands TaskStatus.approved h (step refl stay)
target-Follows (defer _ _) TaskStatus.assigning b h = lands TaskStatus.assigning h (step refl stay)
target-Follows (defer _ _) TaskStatus.planning b h = lands TaskStatus.planning h (step refl stay)
target-Follows (defer _ _) TaskStatus.plan_review b h =
    lands TaskStatus.plan_review h (step refl stay)
target-Follows (defer _ _) TaskStatus.implementing b h =
    lands TaskStatus.implementing h (step refl stay)
target-Follows (defer _ _) TaskStatus.impl_review b h =
    lands TaskStatus.impl_review h (step refl stay)
target-Follows _ _ b h = cc

settled-status :
    (ctx : Ctx) (op : TaskOp) (b : TaskStatus) (t : Task)
    → ctx.engine ≡ none
    → target op t.status ≡ some b
    → (settled ctx op b t).status ≡ b
unfolding settled target
settled-status ctx (reject _ _) b t alone h = ground arith
settled-status ctx (approve _ _ _) b t alone h = ground arith
settled-status ctx _ b t alone h = ground arith

settled-status_engine :
    (ctx : Ctx) (op : TaskOp) (b : TaskStatus) (t : Task) {client : EngineClient}
    → ctx.engine ≡ some client
    → (settled ctx op b t).status ≡ t.status
unfolding settled
settled-status_engine ctx (reject _ _) b t e = refl
settled-status_engine ctx (approve _ _ _) b t e = ground arith
settled-status_engine ctx _ b t e = ground arith

spared :
    (ctx : Ctx) (id j : ℕ) (to : TaskStatus) (ts : List Task)
    → j ≢ id
    → find (is_task j) (set_status ctx id to ts) ≡ find (is_task j) ts
spared ctx id j to ts ne = ground (
  arith,
  find-update_other (is_task id) (is_task j) (with_status ctx.now to) ts (λ t h. ground arith),
)

-- The rows of the other tasks stay as they are.
rewritten-others :
    (ctx : Ctx) (id j : ℕ) (op : TaskOp) (ts : List Task)
    → j ≢ id
    → find (is_task j) (rewritten ctx id op ts) ≡ find (is_task j) ts
unfolding rewritten
rewritten-others ctx id j (reject _ _) ts ne =
    find-update_other (is_task id) (is_task j) (touched ctx.now) ts (λ t h. ground arith)
rewritten-others ctx id j (approve _ _ _) ts ne = spared ctx id j TaskStatus.assigning ts ne
rewritten-others ctx id j (assign _ _ _ _ _) ts ne = spared ctx id j TaskStatus.planning ts ne
rewritten-others ctx id j (plan _ _) ts ne = spared ctx id j TaskStatus.plan_review ts ne
rewritten-others ctx id j (plan_approval _ _ _ _ _) ts ne =
    spared ctx id j TaskStatus.implementing ts ne
rewritten-others ctx id j (plan_rejection _ _ _ _ _) ts ne =
    spared ctx id j TaskStatus.planning ts ne
rewritten-others ctx id j (implementation _ _) ts ne = spared ctx id j TaskStatus.impl_review ts ne
rewritten-others ctx id j (review_approval _ _ _ _ _) ts ne = spared ctx id j TaskStatus.done ts ne
rewritten-others ctx id j (review_rejection _ _ _ _ _) ts ne =
    spared ctx id j TaskStatus.implementing ts ne
rewritten-others ctx id j (defer _ _) ts ne = spared ctx id j TaskStatus.deferred ts ne

module _ (ctx : Ctx) (id : ℕ) (op : TaskOp) (s : Session) (t : Task)
    (found : find_task id s.db ≡ some t) where
  -- An accepted request had its edge in the table.
  accepted :
      (t' : Task)
      → answer ctx id op s.db ≡ ok t'
      → (b : TaskStatus) × (target op t.status ≡ some b) × (t' ≡ settled ctx op b t)
  unfolding answer
  accepted t' h = elim (Option-cases (target op t.status)) [
    | inl e ↦ ground arith
    | inr (b, e) ↦ (b, e, ground arith)
  ]

  -- With no engine, a request that is accepted takes the task along declared edges only.
  pub perform-Follows :
      (t' : Task)
      → ctx.engine ≡ none
      → (perform ctx id op s).0 ≡ ok t'
      → Follows task_transitions (task_status_value t.status) (task_status_value t'.status)
  perform-Follows t' alone h =
      let (b, e, same) = accepted t' (sym (perform-answer ctx id s op) ∙ h) in
      subst (λ x. FollowsTask t.status x)
        (sym (ap (λ (u : Task). u.status) same ∙ settled-status ctx op b t alone e))
        (target-Follows op t.status b e)

  -- The status of a task is never changed by a request while there is an engine.
  pub perform-engine_status :
      (t' : Task) (client : EngineClient)
      → ctx.engine ≡ some client
      → (perform ctx id op s).0 ≡ ok t'
      → t'.status ≡ t.status
  perform-engine_status t' client e h =
      let (b, _, same) = accepted t' (sym (perform-answer ctx id s op) ∙ h) in
      ap (λ (u : Task). u.status) same ∙ settled-status_engine ctx op b t e

decided :
    (id : ℕ) (op : TaskOp) (old : List Approval)
    → (decision id op ++ old ≡ old) ⊎ ((a : Approval) × (decision id op ++ old ≡ a ∷ old))
unfolding decision
decided id (approve _ _ true) old = inl refl
decided id (approve _ _ false) old = inr (_, refl)
decided id (plan_approval _ _ _ _ true) old = inl refl
decided id (plan_approval _ _ _ _ false) old = inr (_, refl)
decided id (review_approval _ _ _ _ true) old = inl refl
decided id (review_approval _ _ _ _ false) old = inr (_, refl)
decided id (reject _ _) old = inr (_, refl)
decided id (plan_rejection _ _ _ _ _) old = inr (_, refl)
decided id (review_rejection _ _ _ _ _) old = inr (_, refl)
decided id (assign _ _ _ _ _) old = inl refl
decided id (plan _ _) old = inl refl
decided id (implementation _ _) old = inl refl
decided id (defer _ _) old = inl refl

-- A request on one task leaves every other task and every work item, plan and implementation as
-- they are, and keeps the approvals there are, with at most one more in front of them.
pub perform-frame :
    (ctx : Ctx) (id j : ℕ) (op : TaskOp) (s : Session)
    → j ≢ id
    → let new = (perform ctx id op s).1.db in
      (find_task j new ≡ find_task j s.db)
      × (new.work_items ≡ s.db.work_items)
      × (new.plans ≡ s.db.plans)
      × (new.implementations ≡ s.db.implementations)
      × ((new.approvals ≡ s.db.approvals) ⊎ ((a : Approval) × (new.approvals ≡ a ∷ s.db.approvals)))
unfolding find_task effect
perform-frame ctx id j op s ne =
    rw (perform-effect ctx id s op) (elim (Result-cases (perform ctx id op s).0) [
      | inl (t, e) ↦ rw e (
        rewritten-others ctx id j op s.db.tasks ne,
        refl,
        refl,
        refl,
        decided id op s.db.approvals,
      )
      | inr (x, e) ↦ rw e (refl, refl, refl, refl, inl refl)
    ])

target-terminal :
    (op : TaskOp) (status : TaskStatus) → is_terminal status ≡ true → target op status ≡ none
unfolding target
target-terminal op status over = ground arith

refused :
    (ctx : Ctx) (id : ℕ) (op : TaskOp) (s : Session) (t : Task)
    → find_task id s.db ≡ some t
    → is_terminal t.status ≡ true
    → (perform ctx id op s).0 ≡ err (if gives_reason op then conflict else validation)
unfolding answer
refused ctx id op s t found over =
    perform-answer ctx id s op ∙ ground (arith, target-terminal op t.status over)

-- A finished or deferred task refuses every request, and nothing is written.
pub perform-terminal :
    (ctx : Ctx) (id : ℕ) (op : TaskOp) (s : Session) (t : Task)
    → find_task id s.db ≡ some t
    → is_terminal t.status ≡ true
    → ((perform ctx id op s).0 ≡ err (if gives_reason op then conflict else validation))
      × ((perform ctx id op s).1.db ≡ s.db)
perform-terminal ctx id op s t found over =
    let e = refused ctx id op s t found over in (e, perform-effect ctx id s op ∙ rw e refl)

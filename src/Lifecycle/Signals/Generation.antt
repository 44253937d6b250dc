-- ===== src/Lifecycle/Signals/Generation.antt =====
-- src/app/modules/ai/lifecycle/effectors/task_generation.py, and the adapter of S1 that fires it
-- (src/app/modules/ai/lifecycle/service.py).
use Prim.Native.Nat.{◌/◌, ◌%◌}
use Prim.Native.String.{◌++◌ as ◌⧺◌}
use carestechs_agent_orchest.Prelude.{
  ℕ, not, ◌+◌, String, Bool, true, false, Option, none, some, List, [], ◌∷◌, ◌==◌, str_eq, count,
  find, ok, err, pure, gets, if◌then◌else◌, ◌>>=◌, ◌>>◌,
}
use carestechs_agent_orchest.Enums.Lifecycle.{
  TaskStatus, ActorType, WorkItemType, work_item_type_value,
}
use carestechs_agent_orchest.Lifecycle.Store.{
  WorkItem, Session, Ctx, Action, find_work_item, fresh, insert_task, commit,
}
use carestechs_agent_orchest.Lifecycle.WorkItems.{is_child, open_work_item}
use carestechs_agent_orchest.Lifecycle.Idempotency.{compute_signal_key, check_and_record}

-- `_SCAFFOLDS`
unfoldable pub scaffold : WorkItemType → List String
scaffold WorkItemType.feat = "Investigate + plan" ∷ "Implement" ∷ "Review + close" ∷ []
scaffold WorkItemType.bug = "Reproduce + root cause" ∷ "Fix" ∷ "Verify + close" ∷ []
scaffold WorkItemType.imp = "Scope + plan" ∷ "Apply improvement" ∷ []

digit : ℕ → String
digit n =
    if n == 0
    then "0"
    else if n == 1
    then "1"
    else if n == 2
    then "2"
    else if n == 3
    then "3"
    else if n == 4
    then "4"
    else if n == 5
    then "5"
    else if n == 6
    then "6"
    else if n == 7
    then "7"
    else if n == 8
    then "8"
    else "9"

-- `{idx:02d}`, for an index below a hundred.
unfoldable pub two_digits : ℕ → String
unfolding digit
two_digits n = digit (n / 10) ⧺ digit (n % 10)

module _ (ctx : Ctx) where
  -- The loop of `fire` over the titles, from an index on.
  unfoldable pub seed_tasks : WorkItem → ℕ → List String → Action Unit
  unfolding fresh insert_task
  seed_tasks wi idx [] = pure tt
  seed_tasks wi idx (title ∷ titles) = do
    id ← fresh ctx
    insert_task (record {
      id = id;
      work_item_id = wi.id;
      external_ref = "T-" ⧺ wi.external_ref ⧺ "-" ⧺ two_digits idx;
      title = title;
      status = TaskStatus.proposed;
      engine_item_id = none;
      proposer_type = ActorType.agent;
      proposer_id = "task_generation";
      updated_at = ctx.now;
    })
    seed_tasks wi (idx + 1) titles

  -- `GenerateTasksEffector.fire`: nothing for an unknown work item or one that has tasks.
  unfoldable pub generate_tasks : ℕ → Action Unit
  unfolding seed_tasks scaffold commit
  generate_tasks work_item_id = do
    found ← gets (λ (s : Session). find_work_item work_item_id s.db)
    existing ← gets (λ (s : Session). count (is_child work_item_id) s.db.tasks)
    elim found [
      | none ↦ pure tt
      | some wi ↦
          if not (existing == 0) then pure tt else do seed_tasks wi 1 (scaffold wi.type); commit
    ]

  -- `_dispatch_task_generation`: an exception of the effector becomes a result, and what it had
  -- not committed goes with the failed flush.
  unfoldable pub dispatch_task_generation : ℕ → Action Unit
  dispatch_task_generation work_item_id s =
      let (r, s') = generate_tasks work_item_id s in
      elim r [ ok _ ↦ (ok tt, s') | err _ ↦ (ok tt, record s' { db = s'.committed }) ]

  abbrev has_ref : String → WorkItem → Bool
  has_ref ref w = str_eq w.external_ref ref

  -- S1. The answer says whether the work item is new.
  unfoldable pub open_work_item_signal :
      (external_ref : String) (type : WorkItemType) (title : String) (source_path : Option String)
      (opened_by : String) (workflow_id : Option ℕ)
      → Action (WorkItem × Bool)
  unfolding check_and_record open_work_item commit dispatch_task_generation
  open_work_item_signal external_ref type title source_path opened_by workflow_id = do
    let sentinel : ℕ = ctx.uuid5 ("work-item:" ⧺ external_ref)
    let key = compute_signal_key ctx sentinel "open-work-item" (
        ("externalRef", some external_ref)
        ∷ ("sourcePath", source_path)
        ∷ ("title", some title)
        ∷ ("type", some (work_item_type_value type))
        ∷ [])
    (is_new, _) ← check_and_record ctx key sentinel "open-work-item"
    existing ← gets (λ (s : Session). find (has_ref external_ref) s.db.work_items)
    elim (if is_new then none else existing) [
      | some wi ↦ pure (wi, false)
      | none ↦ do
        wi ← open_work_item ctx external_ref type title source_path opened_by workflow_id
        commit
        dispatch_task_generation wi.id
        pure (wi, true)
    ]

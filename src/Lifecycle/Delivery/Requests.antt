-- ===== src/Lifecycle/Delivery/Requests.antt =====
-- The signals S2 to S14 as one type, as the routes of src/app/modules/ai/router.py call their
-- adapters: one request each, rolled back when it raises.
use carestechs_agent_orchest.Prelude.{ℕ, String, Bool, Option, some, [], ◌∷◌, pure, ◌>>=◌}
use carestechs_agent_orchest.Enums.Lifecycle.{
  ActorRole, actor_role_value, AssigneeType, assignee_type_value,
}
use carestechs_agent_orchest.Lifecycle.Store.{Payload, Ctx, Action, run_request}
use carestechs_agent_orchest.Lifecycle.Signals.{
  lock_work_item_signal, unlock_work_item_signal, close_work_item_signal, approve_task_signal,
  reject_task_signal, assign_task_signal, defer_task_signal, submit_plan_signal,
  approve_plan_signal, reject_plan_signal, submit_implementation_signal, approve_review_signal,
  reject_review_signal,
}

pub data Signal : Type 0 where
  lock : ℕ → Option String → String → Signal
  unlock : ℕ → String → Signal
  close : ℕ → Option String → String → Signal
  approve_task : ℕ → String → Signal
  reject_task : ℕ → String → String → Signal
  assign_task : ℕ → AssigneeType → String → String → Signal
  defer_task : ℕ → Option String → String → Signal
  submit_plan : ℕ → String → String → String → Signal
  approve_plan : ℕ → String → ActorRole → Bool → Signal
  reject_plan : ℕ → String → String → ActorRole → Bool → Signal
  submit_implementation : ℕ → Option String → String → String → String → Signal
  approve_review : ℕ → String → ActorRole → Bool → Signal
  reject_review : ℕ → String → String → ActorRole → Bool → Signal

abbrev pub is_new : {A : Type 0} → Action (A × Bool) → Action Bool
is_new m = do (_, new) ← m; pure new

-- The adapter that serves the signal; the answer says whether the signal was new.
unfoldable pub handle : Ctx → Signal → Action Bool
handle ctx (lock id reason actor) = is_new (lock_work_item_signal ctx id reason actor)
handle ctx (unlock id actor) = is_new (unlock_work_item_signal ctx id actor)
handle ctx (close id notes actor) = is_new (close_work_item_signal ctx id notes actor)
handle ctx (approve_task id actor) = is_new (approve_task_signal ctx id actor)
handle ctx (reject_task id feedback actor) = is_new (reject_task_signal ctx id feedback actor)
handle ctx (assign_task id kind assignee actor) =
    is_new (assign_task_signal ctx id kind assignee actor)
handle ctx (defer_task id reason actor) = is_new (defer_task_signal ctx id reason actor)
handle ctx (submit_plan id path sha actor) = is_new (submit_plan_signal ctx id path sha actor)
handle ctx (approve_plan id actor role solo) = is_new (approve_plan_signal ctx id actor role solo)
handle ctx (reject_plan id feedback actor role solo) =
    is_new (reject_plan_signal ctx id feedback actor role solo)
handle ctx (submit_implementation id url sha summary actor) =
    is_new (submit_implementation_signal ctx id url sha summary actor)
handle ctx (approve_review id actor role solo) =
    is_new (approve_review_signal ctx id actor role solo)
handle ctx (reject_review id feedback actor role solo) =
    is_new (reject_review_signal ctx id feedback actor role solo)

-- The request of a signal.
unfoldable pub deliver : Ctx → Signal → Action Bool
unfolding run_request
deliver ctx signal = run_request (handle ctx signal)

-- The signal's entity, its name and its payload, from which the idempotency key is made.
unfoldable pub entity : Signal → ℕ
entity (lock id _ _) = id
entity (unlock id _) = id
entity (close id _ _) = id
entity (approve_task id _) = id
entity (reject_task id _ _) = id
entity (assign_task id _ _ _) = id
entity (defer_task id _ _) = id
entity (submit_plan id _ _ _) = id
entity (approve_plan id _ _ _) = id
entity (reject_plan id _ _ _ _) = id
entity (submit_implementation id _ _ _ _) = id
entity (approve_review id _ _ _) = id
entity (reject_review id _ _ _ _) = id

unfoldable pub signal_name : Signal → String
signal_name (lock _ _ _) = "lock-work-item"
signal_name (unlock _ _) = "unlock-work-item"
signal_name (close _ _ _) = "close-work-item"
signal_name (approve_task _ _) = "approve-task"
signal_name (reject_task _ _ _) = "reject-task"
signal_name (assign_task _ _ _ _) = "assign-task"
signal_name (defer_task _ _ _) = "defer-task"
signal_name (submit_plan _ _ _ _) = "submit-plan"
signal_name (approve_plan _ _ _ _) = "approve-plan"
signal_name (reject_plan _ _ _ _ _) = "reject-plan"
signal_name (submit_implementation _ _ _ _ _) = "submit-implementation"
signal_name (approve_review _ _ _ _) = "approve-review"
signal_name (reject_review _ _ _ _ _) = "reject-review"

unfoldable pub payload : Signal → Payload
payload (lock _ reason _) = ("reason", reason) ∷ []
payload (unlock _ _) = []
payload (close _ notes _) = ("notes", notes) ∷ []
payload (approve_task _ _) = []
payload (reject_task _ feedback _) = ("feedback", some feedback) ∷ []
payload (assign_task _ kind assignee _) =
    ("assigneeId", some assignee) ∷ ("assigneeType", some (assignee_type_value kind)) ∷ []
payload (defer_task _ reason _) = ("reason", reason) ∷ []
payload (submit_plan _ path sha _) = ("planPath", some path) ∷ ("planSha", some sha) ∷ []
payload (approve_plan _ _ role _) = ("actorRole", some (actor_role_value role)) ∷ []
payload (reject_plan _ feedback _ role _) =
    ("actorRole", some (actor_role_value role)) ∷ ("feedback", some feedback) ∷ []
payload (submit_implementation _ url sha summary _) =
    ("commitSha", some sha) ∷ ("prUrl", url) ∷ ("summary", some summary) ∷ []
payload (approve_review _ _ role _) = ("actorRole", some (actor_role_value role)) ∷ []
payload (reject_review _ feedback _ role _) =
    ("actorRole", some (actor_role_value role)) ∷ ("feedback", some feedback) ∷ []

-- The key that the signal's adapter computes.
unfoldable pub signal_key : Ctx → Signal → String
unfolding entity signal_name payload
signal_key ctx signal = ctx.digest (entity signal) (signal_name signal) (payload signal)

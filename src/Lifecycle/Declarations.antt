-- ===== src/Lifecycle/Declarations.antt =====
-- src/app/modules/ai/lifecycle/declarations.py: the two workflows as the engine is given them.
use carestechs_agent_orchest.Prelude.{
  String, ◌≡◌, Bool, true, ◌&&◌, ◌||◌, List, [], ◌∷◌, ◌++◌, map, str_eq, any, remove,
}

pub record Transition : Type 0 where
  pub from_status : String
  pub to_status : String
  pub name : String

abbrev edge : String → String → String → Transition
edge from to name = record { from_status = from; to_status = to; name = name }

-- `WORK_ITEM_TRANSITIONS`
unfoldable pub work_item_transitions : List Transition
work_item_transitions =
    edge "open" "in_progress" "approve-first-task"
    ∷ edge "in_progress" "locked" "lock"
    ∷ edge "locked" "in_progress" "unlock"
    ∷ edge "in_progress" "ready" "all-tasks-terminal"
    ∷ edge "ready" "closed" "close"
    ∷ []

-- `_TASK_STATUS_NAMES`
unfoldable pub task_status_names : List String
task_status_names =
    "proposed" ∷ "approved" ∷ "assigning" ∷ "planning" ∷ "plan_review" ∷ "implementing"
    ∷ "impl_review" ∷ "done" ∷ "deferred" ∷ []

-- `name in _TASK_TERMINAL_STATUSES`
unfoldable pub is_terminal_name : String → Bool
is_terminal_name name = str_eq name "done" || str_eq name "deferred"

-- `TASK_TRANSITIONS`
unfoldable pub task_transitions : List Transition
unfolding task_status_names is_terminal_name remove
task_transitions =
    (edge "proposed" "approved" "approve"
      ∷ edge "approved" "assigning" "t4-derived"
      ∷ edge "assigning" "planning" "assign"
      ∷ edge "planning" "plan_review" "submit-plan"
      ∷ edge "plan_review" "implementing" "approve-plan"
      ∷ edge "implementing" "impl_review" "submit-impl"
      ∷ edge "impl_review" "done" "approve-review"
      ∷ edge "plan_review" "planning" "reject-plan"
      ∷ edge "impl_review" "implementing" "reject-review"
      ∷ [])
    ++ map (λ src. edge src "deferred" "defer") (remove is_terminal_name task_status_names)

-- The workflow has an edge between these statuses.
unfoldable pub declares : List Transition → String → String → Bool
unfolding any
declares edges from to = any (λ e. str_eq e.from_status from && str_eq e.to_status to) edges

-- A run of zero or more declared transitions.
pub data Follows (edges : List Transition) : String → String → Type 0 where
  stay : {a : String} → Follows edges a a
  step : {a b c : String} → declares edges a b ≡ true → Follows edges b c → Follows edges a c

-- ===== src/StopConditions/Rules.antt =====
-- src/app/modules/ai/stop_conditions.py: the rules, and their evaluation in order of priority.
use carestechs_agent_orchest.Prelude.{
  ℕ, String, Bool, false, ◌||◌, Option, none, some, is_some, List, [], ◌∷◌, ltb, leb, str_eq, any,
  if◌then◌else◌,
}
use carestechs_agent_orchest.Enums.Runtime.{StopReason}

-- A tool call counts by its name, an exception by its text, a dict as its items in order.
pub record RuntimeState : Type 0 where
  pub last_tool : Option String
  pub step_count : ℕ
  pub token_count : ℕ
  pub max_steps : Option ℕ
  pub max_tokens : Option ℕ
  pub last_policy_error : Option String
  pub last_engine_error : Option String
  pub cancel_requested : Bool
  pub terminal_nodes : List String
  pub correction_attempts : Option (List (String × ℕ))
  pub max_corrections : Option ℕ

unfoldable pub is_cancelled : RuntimeState → Option StopReason
is_cancelled s = if s.cancel_requested then some StopReason.cancelled else none

unfoldable pub is_error : RuntimeState → Option StopReason
is_error s =
    if is_some s.last_policy_error || is_some s.last_engine_error
    then some StopReason.error
    else none

-- The loop over the items.
unfoldable pub exceeds : ℕ → List (String × ℕ) → Option StopReason
exceeds bound [] = none
exceeds bound ((task_id, attempts) ∷ rest) =
    if ltb bound attempts then some StopReason.error else exceeds bound rest

unfoldable pub correction_budget_exceeded : RuntimeState → Option StopReason
unfolding exceeds
correction_budget_exceeded s = elim s.max_corrections [
  | none ↦ none
  | some bound ↦ elim s.correction_attempts [ none ↦ none | some items ↦ exceeds bound items ]
]

unfoldable pub first_exceeding : ℕ → List (String × ℕ) → Option (String × ℕ)
first_exceeding bound [] = none
first_exceeding bound ((task_id, attempts) ∷ rest) =
    if ltb bound attempts then some (task_id, attempts) else first_exceeding bound rest

unfoldable pub find_correction_exceedance : RuntimeState → Option (String × ℕ)
unfolding first_exceeding
find_correction_exceedance s = elim s.max_corrections [
  | none ↦ none
  | some bound ↦ elim s.correction_attempts [
    | none ↦ none
    | some items ↦ first_exceeding bound items
  ]
]

-- `bound is not None and count >= bound`
abbrev pub reaches : ℕ → Option ℕ → Bool
reaches amount none = false
reaches amount (some bound) = leb bound amount

unfoldable pub is_budget_exceeded : RuntimeState → Option StopReason
is_budget_exceeded s =
    if reaches s.step_count s.max_steps
    then some StopReason.budget_exceeded
    else if reaches s.token_count s.max_tokens
    then some StopReason.budget_exceeded
    else none

unfoldable pub is_policy_terminated : RuntimeState → Option StopReason
is_policy_terminated s = elim s.last_tool [
  | none ↦ none
  | some name ↦ if str_eq name "terminate" then some StopReason.policy_terminated else none
]

unfoldable pub is_done_node : RuntimeState → Option StopReason
is_done_node s = elim s.last_tool [
  | none ↦ none
  | some name ↦ if any (str_eq name) s.terminal_nodes then some StopReason.done_node else none
]

abbrev pub Rule : Type 0
Rule = RuntimeState → Option StopReason

-- `_PRIORITY`
unfoldable pub priority : List Rule
priority =
    is_cancelled ∷ is_error ∷ correction_budget_exceeded ∷ is_budget_exceeded ∷ is_policy_terminated
    ∷ is_done_node ∷ []

-- The loop of `evaluate`.
unfoldable pub first_reason : List Rule → RuntimeState → Option StopReason
first_reason [] s = none
first_reason (rule ∷ rules) s = elim (rule s) [
  | some reason ↦ some reason
  | none ↦ first_reason rules s
]

unfoldable pub evaluate : RuntimeState → Option StopReason
unfolding priority first_reason
evaluate s = first_reason priority s

-- ===== src/StopConditions/Tests.antt =====
-- A run at its budget, with one task over its bound on corrections.
use carestechs_agent_orchest.Prelude.{ℕ, String, ◌≡◌, false, none, some, is_none, List, [], ◌∷◌}
use carestechs_agent_orchest.StopConditions.Rules.{RuntimeState, evaluate}
use carestechs_agent_orchest.StopConditions.Priority.{
  within, corrections_within, may_continue, evaluate-none,
}

abbrev attempts : List (String × ℕ)
attempts = ("T-1", 1) ∷ ("T-2", 3) ∷ ("T-3", 5) ∷ []

abbrev state : RuntimeState
state = record {
  last_tool = some "implement";
  step_count = 7;
  token_count = 10;
  max_steps = some 7;
  max_tokens = none;
  last_policy_error = none;
  last_engine_error = none;
  cancel_requested = false;
  terminal_nodes = "close" ∷ [];
  correction_attempts = some attempts;
  max_corrections = some 2;
}

evaluate-none_example : is_none (evaluate state) ≡ false
unfolding may_continue corrections_within within
evaluate-none_example = evaluate-none state

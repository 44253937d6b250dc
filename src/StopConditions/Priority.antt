-- ===== src/StopConditions/Priority.antt =====
-- Which reason stops the loop, and when it goes on.
use carestechs_agent_orchest.Prelude.{
  ℕ, ◌<◌, String, ◌≡◌, ◌↔◌, refl, Bool, true, Option, none, some, is_some, is_none, not, ◌&&◌, ◌||◌,
  if◌then◌else◌, List, [], ◌∷◌, ◌++◌, str_eq, any, all, arith, ltb, leb, inl, inr, Option-cases,
  Bool-cases, ap,
}
use carestechs_agent_orchest.Enums.Runtime.{StopReason}
use carestechs_agent_orchest.StopConditions.Rules.{
  RuntimeState, evaluate, is_cancelled, is_error, correction_budget_exceeded, is_budget_exceeded,
  is_policy_terminated, is_done_node, exceeds, first_exceeding, find_correction_exceedance,
}

-- Every task is within the bound on corrections.
unfoldable pub within : ℕ → List (String × ℕ) → Bool
unfolding all
within bound items = all (λ item. leb item.1 bound) items

unfoldable pub corrections_within : RuntimeState → Bool
corrections_within s = elim s.max_corrections [
  | none ↦ true
  | some bound ↦ elim s.correction_attempts [ none ↦ true | some items ↦ within bound items ]
]

-- A count stays below its budget, if there is one.
unfoldable pub is_below : ℕ → Option ℕ → Bool
is_below amount none = true
is_below amount (some bound) = ltb amount bound

-- The tool goes on with the flow.
unfoldable pub goes_on : Option String → List String → Bool
unfolding any
goes_on none nodes = true
goes_on (some name) nodes = not (str_eq name "terminate") && not (any (str_eq name) nodes)

-- What a run that goes on looks like.
unfoldable pub may_continue : RuntimeState → Bool
unfolding is_below goes_on corrections_within
may_continue s =
    not s.cancel_requested
    && is_none s.last_policy_error
    && is_none s.last_engine_error
    && corrections_within s
    && is_below s.step_count s.max_steps
    && is_below s.token_count s.max_tokens
    && goes_on s.last_tool s.terminal_nodes

exceeds-within :
    (bound : ℕ) (items : List (String × ℕ))
    → exceeds bound items ≡ (if within bound items then none else some StopReason.error)
unfolding exceeds within
exceeds-within bound [] = refl
exceeds-within bound ((task, attempts) ∷ rest) = ground (arith, exceeds-within bound rest)

exceeding-within :
    (bound : ℕ) (items : List (String × ℕ))
    → is_none (first_exceeding bound items) ≡ within bound items
unfolding first_exceeding within
exceeding-within bound [] = refl
exceeding-within bound ((task, attempts) ∷ rest) = ground (arith, exceeding-within bound rest)

corrections-answer :
    (s : RuntimeState)
    → correction_budget_exceeded s ≡ (if corrections_within s then none else some StopReason.error)
unfolding correction_budget_exceeded corrections_within
corrections-answer s = elim (Option-cases s.max_corrections) [
  | inl e ↦ ground arith
  | inr (bound, e) ↦ elim (Option-cases s.correction_attempts) [
    | inl f ↦ ground arith
    | inr (items, f) ↦ ground (arith, exceeds-within bound items)
  ]
]

exceedance-answer :
    (s : RuntimeState) → is_none (find_correction_exceedance s) ≡ corrections_within s
unfolding find_correction_exceedance corrections_within
exceedance-answer s = elim (Option-cases s.max_corrections) [
  | inl e ↦ ground arith
  | inr (bound, e) ↦ elim (Option-cases s.correction_attempts) [
    | inl f ↦ ground arith
    | inr (items, f) ↦ ground (arith, exceeding-within bound items)
  ]
]

-- The loop goes on exactly while it is not cancelled, has met no error, keeps every task within its
-- bound on corrections, is below its budgets of steps and tokens, and has not chosen the terminate
-- tool or a terminal node.
pub evaluate-none : (s : RuntimeState) → is_none (evaluate s) ≡ may_continue s
unfolding evaluate is_cancelled is_error is_budget_exceeded is_policy_terminated is_done_node
    may_continue
evaluate-none s = ground (arith, corrections-answer s)

-- Cancellation is reported exactly when it was requested: no error and no budget hides it.
pub evaluate-cancelled :
    (s : RuntimeState) → (evaluate s ≡ some StopReason.cancelled) ↔ (s.cancel_requested ≡ true)
unfolding evaluate is_cancelled is_error is_budget_exceeded is_policy_terminated is_done_node
evaluate-cancelled s = ground (arith, corrections-answer s)

-- An error is reported exactly when there was no cancellation and there was a policy error, an
-- engine error, or a task for `find_correction_exceedance` to name in the run's final state.
pub evaluate-error :
    (s : RuntimeState)
    → (evaluate s ≡ some StopReason.error) ↔ (
        (not s.cancel_requested
          && (is_some s.last_policy_error
              || is_some s.last_engine_error
              || is_some (find_correction_exceedance s)))
        ≡ true)
unfolding evaluate is_cancelled is_error is_budget_exceeded is_policy_terminated is_done_node
evaluate-error s = ground (arith, corrections-answer s, exceedance-answer s)

first_exceeding-split :
    (bound : ℕ) (items : List (String × ℕ)) (task : String) (attempts : ℕ)
    → first_exceeding bound items ≡ some (task, attempts)
    → (before : List (String × ℕ)) × (after : List (String × ℕ)) × (items
        ≡ before ++ (task, attempts) ∷ after)
      × (within bound before ≡ true)
      × (bound < attempts)
unfolding first_exceeding within
first_exceeding-split bound [] task attempts h = ground arith
first_exceeding-split bound ((t, n) ∷ rest) task attempts h = elim (Bool-cases (ltb bound n)) [
  | inl over ↦ ([], rest, ground arith, refl, ground arith)
  | inr below ↦
      let later : first_exceeding bound rest ≡ some (task, attempts) = ground arith in
      let (before, after, e, w, l) = first_exceeding-split bound rest task attempts later in
      ((t, n) ∷ before, after, ap (λ xs. (t, n) ∷ xs) e, ground arith, l)
]

-- The task that is named for the final state is the first of the run's tasks over its bound: its
-- attempts exceed the bound, and no task before it does.
pub find_correction_exceedance-first :
    (s : RuntimeState) (bound : ℕ) (items : List (String × ℕ)) (task : String) (attempts : ℕ)
    → s.max_corrections ≡ some bound
    → s.correction_attempts ≡ some items
    → find_correction_exceedance s ≡ some (task, attempts)
    → (before : List (String × ℕ)) × (after : List (String × ℕ)) × (items
        ≡ before ++ (task, attempts) ∷ after)
      × (within bound before ≡ true)
      × (bound < attempts)
unfolding find_correction_exceedance
find_correction_exceedance-first s bound items task attempts b i h =
    first_exceeding-split bound items task attempts (ground arith)

-- ===== src/Flow/Errors.antt =====
-- When the resolver raises.
use carestechs_agent_orchest.Prelude.{
  String, Bool, true, false, not, ◌&&◌, ◌||◌, Option, none, some, is_blank, is_some, ◌≡◌, ◌⊎◌, inl,
  inr, arith, refl, if◌then◌else◌,
}
use carestechs_agent_orchest.Json.Value.{
  Json, null, bool, int, decimal, array, object, text, nil, cons, Fields, get, lookup, as_text,
  as_object,
}
use carestechs_agent_orchest.Flow.Rule.{Expression, parse}
use carestechs_agent_orchest.Flow.Predicates.{Env, Predicate, registry, get_predicate}
use carestechs_agent_orchest.Flow.Resolver.{
  Declaration, Decision, FlowError, Resolved, resolved, raised, evaluate_rule, choose,
  resolve_branch, resolve_edge, resolve_next, with_targets, with_rule, with_mapping, with_branch,
  run_predicate, evaluate_expression,
}

-- A transition that declares what the resolver needs: at most one target, or a branch with a known
-- rule and two texts as its targets.
module _ (env : Env) where
  abbrev known_rule : Option String → Bool
  known_rule none = false
  known_rule (some rule) =
      not (is_blank rule) && (is_some (parse rule) || is_some (get_predicate rule (registry env)))

  abbrev complete_branch : Option Fields → Bool
  complete_branch none = false
  complete_branch (some b) =
      known_rule (as_text (get "rule" b))
      && is_some (as_text (get "true" b))
      && is_some (as_text (get "false" b))

  abbrev with_complete_branch : Option Json → Bool
  with_complete_branch none = false
  with_complete_branch (some branch) = complete_branch (as_object branch)

  unfoldable pub is_complete : Json → Bool
  unfolding get lookup is_blank parse get_predicate registry
  is_complete (array nil) = true
  is_complete (array (cons _ nil)) = true
  is_complete (object fields) = with_complete_branch (lookup "branch" fields)
  is_complete _ = false

-- The errors that depend on the run: a rule that reads a result before there is one, and a predicate
-- that raises.
abbrev pub AtRunTime : Option Fields → FlowError → Type 0
AtRunTime last e = ((e ≡ FlowError.no_result) × (last ≡ none)) ⊎ (e ≡ FlowError.predicate_raised)

module _ (env : Env) (memory : Fields) (last : Option Fields) where
  expression_error :
      (e : Expression) (o : Option Fields) (error : FlowError)
      → evaluate_expression env memory last e o ≡ raised error
      → (error ≡ FlowError.no_result) × (o ≡ none)
  expression_error e none error h = (ground arith, refl)
  expression_error e (some r) error h = ground arith

  predicate_error :
      (o : Option Predicate) (error : FlowError)
      → is_some o ≡ true
      → run_predicate env memory last o ≡ raised error
      → error ≡ FlowError.predicate_raised
  predicate_error none error k h = ground arith
  predicate_error (some p) error k h = go (p memory last) h
    where
      go :
          (o : Option Bool)
          → elim o as (λ _. Resolved Bool) [
            | none ↦ raised FlowError.predicate_raised
            | some b ↦ resolved b
          ]
            ≡ raised error
          → error ≡ FlowError.predicate_raised
      go none h = ground arith
      go (some b) h = ground arith

  rule_error :
      (rule : String) (error : FlowError)
      → (is_some (parse rule) || is_some (get_predicate rule (registry env))) ≡ true
      → evaluate_rule env memory last rule ≡ raised error
      → AtRunTime last error
  unfolding evaluate_rule
  rule_error rule error k h = go (parse rule) k h
    where
      go :
          (o : Option Expression)
          → (is_some o || is_some (get_predicate rule (registry env))) ≡ true
          → elim o as (λ _. Resolved Bool) [
            | some e ↦ evaluate_expression env memory last e last
            | none ↦ run_predicate env memory last (get_predicate rule (registry env))
          ]
            ≡ raised error
          → AtRunTime last error
      go (some e) k h = inl (expression_error e last error h)
      go none k h = inr (predicate_error (get_predicate rule (registry env)) error k h)

  choose_error :
      (rule t f : String) (error : FlowError)
      → (is_some (parse rule) || is_some (get_predicate rule (registry env))) ≡ true
      → choose env memory last rule t f ≡ raised error
      → AtRunTime last error
  unfolding choose
  choose_error rule t f error k h =
      rule_error rule error k (go (evaluate_rule env memory last rule) h)
    where
      go :
          (r : Resolved Bool)
          → elim r as (λ _. Resolved Decision) [
            | raised e ↦ raised e
            | resolved chosen ↦ resolved (Decision.next_node (text (if chosen then t else f)))
          ]
            ≡ raised error
          → r ≡ raised error
      go (raised e) h = ground arith
      go (resolved b) h = ground arith

  with_targets_error :
      (rule : String) (t f : Option String) (error : FlowError)
      → (is_some (parse rule) || is_some (get_predicate rule (registry env))) ≡ true
      → (is_some t && is_some f) ≡ true
      → with_targets env memory last rule t f ≡ raised error
      → AtRunTime last error
  with_targets_error rule none f error k s h = ground arith
  with_targets_error rule (some t) none error k s h = ground arith
  with_targets_error rule (some t) (some f) error k s h = choose_error rule t f error k h

  with_rule_error :
      (o : Option String) (t f : Json) (error : FlowError)
      → (known_rule env o && is_some (as_text t) && is_some (as_text f)) ≡ true
      → with_rule env memory last o t f ≡ raised error
      → AtRunTime last error
  with_rule_error none t f error k h = ground arith
  with_rule_error (some rule) t f error k h =
      with_targets_error rule (as_text t) (as_text f) error (ground arith) (ground arith)
        (ground arith)

  with_mapping_error :
      (o : Option Fields) (error : FlowError)
      → complete_branch env o ≡ true
      → with_mapping env memory last o ≡ raised error
      → AtRunTime last error
  unfolding with_mapping
  with_mapping_error none error k h = ground arith
  with_mapping_error (some b) error k h =
      with_rule_error (as_text (get "rule" b)) (get "true" b) (get "false" b) error k h

  with_branch_error :
      (o : Option Json) (error : FlowError)
      → with_complete_branch env o ≡ true
      → with_branch env memory last o ≡ raised error
      → AtRunTime last error
  unfolding resolve_branch
  with_branch_error none error k h = ground arith
  with_branch_error (some branch) error k h = with_mapping_error (as_object branch) error k h

  edge_error :
      (edge : Json) (error : FlowError)
      → is_complete env edge ≡ true
      → resolve_edge env memory last edge ≡ raised error
      → AtRunTime last error
  unfolding resolve_edge is_complete
  edge_error null error k h = ground arith
  edge_error (bool b) error k h = ground arith
  edge_error (int n) error k h = ground arith
  edge_error (decimal b m n) error k h = ground arith
  edge_error (text t) error k h = ground arith
  edge_error (array nil) error k h = ground arith
  edge_error (array (cons w nil)) error k h = ground arith
  edge_error (array (cons w (cons u rest))) error k h = ground arith
  edge_error (object fields) error k h = with_branch_error (lookup "branch" fields) error k h

  -- For a node whose transition is complete (at most one target, or a branch whose rule is an
  -- expression or the name of a predicate and whose two targets are texts), the resolver never
  -- raises for what the flow declares: only because a rule reads a result and there is none yet, or
  -- because a predicate raised.
  pub resolve_next-AtRunTime :
      (d : Declaration) (current : String) (error : FlowError)
      → is_complete env (get current d.transitions) ≡ true
      → resolve_next env memory last d current ≡ raised error
      → AtRunTime last error
  unfolding resolve_next
  resolve_next-AtRunTime d current error k h =
      edge_error (get current d.transitions) error k (ground arith)

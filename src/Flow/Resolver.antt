-- ===== src/Flow/Resolver.antt =====
-- src/app/modules/ai/flow_resolver.py: `resolve_next`.
use carestechs_agent_orchest.Prelude.{
  String, Bool, Option, none, some, List, any, str_eq, is_blank, if◌then◌else◌,
}
use carestechs_agent_orchest.Json.Value.{
  Json, null, array, object, text, nil, cons, Fields, get, lookup, is_truthy, as_text, as_object,
}
use carestechs_agent_orchest.Flow.Rule.{Expression, parse, holds}
use carestechs_agent_orchest.Flow.Predicates.{
  Env, Predicate, registry, get_predicate, from_last, to_str,
}

-- `flow` and `terminal_nodes` of an agent's definition; a transition is checked when it is used.
pub record Declaration : Type 0 where
  pub entry_node : String
  pub terminal_nodes : List String
  pub transitions : Fields

-- `NextNode` and `TerminalSentinel`. The one target of a list is passed on unchecked.
pub data Decision : Type 0 where
  next_node : Json → Decision
  terminal : String → Decision

-- Why the resolver raises: `FlowDeclarationError`, by its message, and what a branch that is no
-- mapping and a predicate raise themselves.
pub data FlowError : Type 0 where
  no_transition many_targets unrecognized_shape missing_rule missing_targets unknown_rule
        no_result :
      FlowError
  branch_not_mapping predicate_raised : FlowError

pub data Resolved {ℓ} (A : Type ℓ) : Type ℓ where
  resolved : A → Resolved A
  raised : FlowError → Resolved A

module _ (env : Env) (memory : Fields) (last : Option Fields) where
  abbrev pub evaluate_expression : Expression → Option Fields → Resolved Bool
  evaluate_expression e none = raised FlowError.no_result
  evaluate_expression e (some result) = resolved (holds e result)

  abbrev pub run_predicate : Option Predicate → Resolved Bool
  run_predicate none = raised FlowError.unknown_rule
  run_predicate (some p) = elim (p memory last) [
    | none ↦ raised FlowError.predicate_raised
    | some b ↦ resolved b
  ]

  -- `_evaluate_rule`
  unfoldable pub evaluate_rule : String → Resolved Bool
  unfolding parse holds get_predicate registry
  evaluate_rule rule = elim (parse rule) [
    | some e ↦ evaluate_expression e last
    | none ↦ run_predicate (get_predicate rule (registry env))
  ]

  -- The target that the rule chooses.
  unfoldable pub choose : String → String → String → Resolved Decision
  unfolding evaluate_rule
  choose rule true_target false_target = elim (evaluate_rule rule) [
    | raised e ↦ raised e
    | resolved chosen ↦
        resolved (Decision.next_node (text (if chosen then true_target else false_target)))
  ]

  abbrev pub with_targets : String → Option String → Option String → Resolved Decision
  with_targets rule (some t) (some f) = choose rule t f
  with_targets rule _ _ = raised FlowError.missing_targets

  abbrev pub with_rule : Option String → Json → Json → Resolved Decision
  with_rule none t f = raised FlowError.missing_rule
  with_rule (some rule) t f =
      if is_blank rule
      then raised FlowError.missing_rule
      else with_targets rule (as_text t) (as_text f)

  unfoldable pub with_mapping : Option Fields → Resolved Decision
  unfolding choose get is_blank
  with_mapping none = raised FlowError.branch_not_mapping
  with_mapping (some branch) =
      with_rule (as_text (get "rule" branch)) (get "true" branch) (get "false" branch)

  -- `_resolve_branch`
  unfoldable pub resolve_branch : Json → Resolved Decision
  unfolding with_mapping
  resolve_branch branch = with_mapping (as_object branch)

  abbrev pub with_branch : Option Json → Resolved Decision
  with_branch none = raised FlowError.unrecognized_shape
  with_branch (some branch) = resolve_branch branch

  -- What follows from the node's entry in `flow.transitions`.
  unfoldable pub resolve_edge : Json → Resolved Decision
  unfolding resolve_branch lookup
  resolve_edge null = raised FlowError.no_transition
  resolve_edge (array nil) = resolved (Decision.terminal "done_node")
  resolve_edge (array (cons v nil)) = resolved (Decision.next_node v)
  resolve_edge (array (cons _ (cons _ _))) = raised FlowError.many_targets
  resolve_edge (object fields) = with_branch (lookup "branch" fields)
  resolve_edge _ = raised FlowError.unrecognized_shape

  -- `last_dispatch_result.get("terminal")`
  unfoldable pub asks_to_stop : Bool
  unfolding from_last
  asks_to_stop = is_truthy (from_last "terminal" last)

  -- `str(last_dispatch_result.get("terminal_reason") or "policy_terminated")`
  unfoldable pub terminal_reason : String
  unfolding from_last to_str
  terminal_reason =
      let reason = from_last "terminal_reason" last in
      if is_truthy reason then to_str env reason else "policy_terminated"

  unfoldable pub resolve_next : Declaration → String → Resolved Decision
  unfolding any get resolve_edge asks_to_stop terminal_reason
  resolve_next d current_node =
      if asks_to_stop
      then resolved (Decision.terminal terminal_reason)
      else if any (str_eq current_node) d.terminal_nodes
      then resolved (Decision.terminal "done_node")
      else resolve_edge (get current_node d.transitions)

-- ===== src/Flow/Endings.antt =====
-- When the resolver ends the run.
use carestechs_agent_orchest.Prelude.{
  String, Bool, true, false, Option, none, some, any, str_eq, ◌≡◌, ◌⊎◌, ◌↔◌, inl, inr, arith, refl,
  sym, subst, Bool-cases, if◌then◌else◌,
}
use carestechs_agent_orchest.Json.Value.{
  Json, null, bool, int, decimal, array, object, text, nil, cons, Fields, get, lookup, as_text,
  as_object,
}
use carestechs_agent_orchest.Flow.Predicates.{Env}
use carestechs_agent_orchest.Flow.Resolver.{
  Declaration, Decision, Resolved, resolved, raised, evaluate_rule, choose, resolve_branch,
  resolve_edge, asks_to_stop, terminal_reason, resolve_next, with_targets, with_rule, with_mapping,
  with_branch,
}

module _ (env : Env) (memory : Fields) (last : Option Fields) where
  -- A branch never ends the run.
  record Continues (r : Resolved Decision) : Type 0 where
    at : (reason : String) → r ≡ resolved (Decision.terminal reason) → ⊥

  choose-Continues : (rule t f : String) → Continues (choose env memory last rule t f)
  unfolding choose
  choose-Continues rule t f = go (evaluate_rule env memory last rule)
    where
      go :
          (r : Resolved Bool)
          → Continues (elim r as (λ _. Resolved Decision) [
            | raised e ↦ raised e
            | resolved chosen ↦ resolved (Decision.next_node (text (if chosen then t else f)))
          ])
      go (raised e) = record { at = λ r h. ground arith }
      go (resolved b) = record { at = λ r h. ground arith }

  with_targets-Continues :
      (rule : String) (t f : Option String) → Continues (with_targets env memory last rule t f)
  with_targets-Continues rule none f = record { at = λ r h. ground arith }
  with_targets-Continues rule (some t) none = record { at = λ r h. ground arith }
  with_targets-Continues rule (some t) (some f) = choose-Continues rule t f

  with_rule-Continues :
      (o : Option String) (t f : Json) → Continues (with_rule env memory last o t f)
  with_rule-Continues none t f = record { at = λ r h. ground arith }
  with_rule-Continues (some rule) t f = record {
    at = λ r h. (with_targets-Continues rule (as_text t) (as_text f)).at r (ground arith);
  }

  with_mapping-Continues : (o : Option Fields) → Continues (with_mapping env memory last o)
  unfolding with_mapping
  with_mapping-Continues none = record { at = λ r h. ground arith }
  with_mapping-Continues (some b) =
      with_rule-Continues (as_text (get "rule" b)) (get "true" b) (get "false" b)

  with_branch-Continues : (o : Option Json) → Continues (with_branch env memory last o)
  unfolding resolve_branch
  with_branch-Continues none = record { at = λ r h. ground arith }
  with_branch-Continues (some branch) = with_mapping-Continues (as_object branch)

  edge_end :
      (edge : Json) (reason : String)
      → resolve_edge env memory last edge ≡ resolved (Decision.terminal reason)
      → (edge ≡ array nil) × (reason ≡ "done_node")
  unfolding resolve_edge
  edge_end null r h = ground arith
  edge_end (bool b) r h = ground arith
  edge_end (int n) r h = ground arith
  edge_end (decimal b m n) r h = ground arith
  edge_end (text t) r h = ground arith
  edge_end (array nil) r h = (refl, ground arith)
  edge_end (array (cons w nil)) r h = ground arith
  edge_end (array (cons w (cons u rest))) r h = ground arith
  edge_end (object fields) r h = absurd ((with_branch-Continues (lookup "branch" fields)).at r h)

  done_edge :
      (edge : Json)
      → edge ≡ array nil
      → resolve_edge env memory last edge ≡ resolved (Decision.terminal "done_node")
  unfolding resolve_edge
  done_edge edge e =
      subst (λ v. resolve_edge env memory last v ≡ resolved (Decision.terminal "done_node")) (sym e)
        refl

  -- The resolver ends the run exactly when the last executor asked to stop, or the current node is a
  -- terminal node, or its transition is an empty list. The reason is the executor's in the first
  -- case, and `done_node` in the others.
  pub resolve_next-terminal :
      (d : Declaration) (current reason : String)
      → (resolve_next env memory last d current ≡ resolved (Decision.terminal reason)) ↔ (
          ((asks_to_stop env memory last ≡ true) × (reason ≡ terminal_reason env memory last))
          ⊎ ((asks_to_stop env memory last ≡ false)
              × (reason ≡ "done_node")
              × ((any (str_eq current) d.terminal_nodes ≡ true)
                  ⊎ (get current d.transitions ≡ array nil))))
  unfolding resolve_next
  resolve_next-terminal d current reason = (
    λ h. elim (Bool-cases (asks_to_stop env memory last)) [
      | inl stop ↦ inl (stop, ground arith)
      | inr on ↦ elim (Bool-cases (any (str_eq current) d.terminal_nodes)) [
        | inl node ↦ inr (on, ground arith, inl node)
        | inr open_node ↦
            let (e, r) = edge_end (get current d.transitions) reason (ground arith) in
            inr (on, r, inr e)
      ]
    ],
    λ h. elim h [
      | inl (stop, r) ↦ ground arith
      | inr (on, r, inl node) ↦ ground arith
      | inr (on, r, inr e) ↦ ground (arith, done_edge (get current d.transitions) e)
    ],
  )

-- ===== src/Flow/Targets.antt =====
-- What the resolver's answers say of the declaration.
use carestechs_agent_orchest.Prelude.{
  String, Bool, true, false, Option, none, some, any, str_eq, ◌≡◌, ◌⊎◌, inl, inr, arith, refl, sym,
  subst, ap, ◌∙◌, Bool-cases, if◌then◌else◌,
}
use carestechs_agent_orchest.Json.Value.{
  Json, null, bool, int, decimal, array, object, text, nil, cons, Fields, get, lookup, as_text,
  as_object,
}
use carestechs_agent_orchest.Flow.Predicates.{Env}
use carestechs_agent_orchest.Flow.Resolver.{
  Declaration, Decision, Resolved, resolved, raised, evaluate_rule, choose, resolve_branch,
  resolve_edge, asks_to_stop, resolve_next, with_targets, with_rule, with_mapping, with_branch,
}

-- The targets that a transition declares: the only entry of a list, or one of a branch's two texts.
pub data Target : Json → Json → Type 0 where
  only : (v : Json) → Target v (array (cons v nil))
  true_of :
      (fields branch : Fields) (v : String)
      → lookup "branch" fields ≡ some (object branch)
      → get "true" branch ≡ text v
      → Target (text v) (object fields)
  false_of :
      (fields branch : Fields) (v : String)
      → lookup "branch" fields ≡ some (object branch)
      → get "false" branch ≡ text v
      → Target (text v) (object fields)

pub as_text_sound : (v : Json) (t : String) → as_text v ≡ some t → v ≡ text t
as_text_sound (text s) t h = ground arith
as_text_sound null t h = ground arith
as_text_sound (bool b) t h = ground arith
as_text_sound (int n) t h = ground arith
as_text_sound (decimal b m n) t h = ground arith
as_text_sound (array vs) t h = ground arith
as_text_sound (object fs) t h = ground arith

as_object_sound : (v : Json) (fs : Fields) → as_object v ≡ some fs → v ≡ object fs
as_object_sound (object gs) fs h = ground arith
as_object_sound (text s) fs h = ground arith
as_object_sound null fs h = ground arith
as_object_sound (bool b) fs h = ground arith
as_object_sound (int n) fs h = ground arith
as_object_sound (decimal b m n) fs h = ground arith
as_object_sound (array vs) fs h = ground arith

module _ (env : Env) (memory : Fields) (last : Option Fields) where
  choose-cases :
      (rule t f : String) (v : Json)
      → choose env memory last rule t f ≡ resolved (Decision.next_node v)
      → (v ≡ text t) ⊎ (v ≡ text f)
  unfolding choose
  choose-cases rule t f v h = go (evaluate_rule env memory last rule) h
    where
      go :
          (r : Resolved Bool)
          → elim r as (λ _. Resolved Decision) [
            | raised e ↦ raised e
            | resolved chosen ↦ resolved (Decision.next_node (text (if chosen then t else f)))
          ]
            ≡ resolved (Decision.next_node v)
          → (v ≡ text t) ⊎ (v ≡ text f)
      go (raised e) h = ground arith
      go (resolved true) h = inl (ground arith)
      go (resolved false) h = inr (ground arith)

  with_targets-cases :
      (rule : String) (t f : Option String) (v : Json)
      → with_targets env memory last rule t f ≡ resolved (Decision.next_node v)
      → (s : String) × (v ≡ text s) × ((t ≡ some s) ⊎ (f ≡ some s))
  with_targets-cases rule none f v h = ground arith
  with_targets-cases rule (some t) none v h = ground arith
  with_targets-cases rule (some t) (some f) v h = elim (choose-cases rule t f v h) [
    | inl e ↦ (t, e, inl refl)
    | inr e ↦ (f, e, inr refl)
  ]

  with_rule-cases :
      (o : Option String) (t f : Json) (v : Json)
      → with_rule env memory last o t f ≡ resolved (Decision.next_node v)
      → (s : String) × (v ≡ text s) × ((t ≡ text s) ⊎ (f ≡ text s))
  with_rule-cases none t f v h = ground arith
  with_rule-cases (some rule) t f v h =
      let chosen : with_targets env memory last rule (as_text t) (as_text f)
          ≡ resolved (Decision.next_node v) =
        ground arith in
      let (s, e, which) = with_targets-cases rule (as_text t) (as_text f) v chosen in
      (s, e, elim which [ inl l ↦ inl (as_text_sound t s l) | inr r ↦ inr (as_text_sound f s r) ])

  branch-Target :
      (fields : Fields) (branch : Json) (v : Json)
      → lookup "branch" fields ≡ some branch
      → resolve_branch env memory last branch ≡ resolved (Decision.next_node v)
      → Target v (object fields)
  unfolding resolve_branch with_mapping
  branch-Target fields branch v at h = go (as_object branch) refl h
    where
      go :
          (o : Option Fields)
          → as_object branch ≡ o
          → with_mapping env memory last o ≡ resolved (Decision.next_node v)
          → Target v (object fields)
      go none e h = ground arith
      go (some b) e h =
          let (s, same, which) =
            with_rule-cases (as_text (get "rule" b)) (get "true" b) (get "false" b) v h in
          subst (λ u. Target u (object fields)) (sym same)
            (elim which [
              | inl l ↦ true_of fields b s (at ∙ ap some (as_object_sound branch b e)) l
              | inr r ↦ false_of fields b s (at ∙ ap some (as_object_sound branch b e)) r
            ])

  edge-Target :
      (edge v : Json)
      → resolve_edge env memory last edge ≡ resolved (Decision.next_node v)
      → Target v edge
  unfolding resolve_edge
  edge-Target null v h = ground arith
  edge-Target (bool b) v h = ground arith
  edge-Target (int n) v h = ground arith
  edge-Target (decimal b m n) v h = ground arith
  edge-Target (text t) v h = ground arith
  edge-Target (array nil) v h = ground arith
  edge-Target (array (cons w nil)) v h =
      let same : w ≡ v = ground arith in
      subst (λ u. Target v (array (cons u nil))) (sym same) (only v)
  edge-Target (array (cons w (cons u rest))) v h = ground arith
  edge-Target (object fields) v h = go (lookup "branch" fields) refl h
    where
      go :
          (o : Option Json)
          → lookup "branch" fields ≡ o
          → with_branch env memory last o ≡ resolved (Decision.next_node v)
          → Target v (object fields)
      go none e h = ground arith
      go (some branch) e h = branch-Target fields branch v e h

  -- When the resolver answers with a next node, that node is a target that the current node's
  -- transition declares (the one entry of its list, or a text that its branch names), the last
  -- executor did not ask to stop, and the current node is no terminal node.
  pub resolve_next-Target :
      (d : Declaration) (current : String) (v : Json)
      → resolve_next env memory last d current ≡ resolved (Decision.next_node v)
      → Target v (get current d.transitions)
        × (asks_to_stop env memory last ≡ false)
        × (any (str_eq current) d.terminal_nodes ≡ false)
  unfolding resolve_next
  resolve_next-Target d current v h = elim (Bool-cases (asks_to_stop env memory last)) [
    | inl stop ↦ ground arith
    | inr on ↦ elim (Bool-cases (any (str_eq current) d.terminal_nodes)) [
      | inl terminal ↦ ground arith
      | inr open_node ↦ (edge-Target (get current d.transitions) v (ground arith), on, open_node)
    ]
  ]

-- ===== src/Executors/Laws.antt =====
-- What a registration changes, and what the coverage check promises the runtime.
use carestechs_agent_orchest.Prelude.{
  String, Bool, true, false, not, ◌||◌, ◌&&◌, str_eq, sym, none, some, List, [], ◌∷◌, ◌++◌, find,
  any, is_some, ◌≡◌, ◌⊎◌, inl, inr, refl, arith, str_eq_iff, ap, ◌∙◌, Bool-cases, if◌then◌else◌,
}
use carestechs_agent_orchest.Json.Value.{Fields}
use carestechs_agent_orchest.Executors.Registry.{
  Key, same_key, Binding, key_of, Registry, Exemptions, resolve, has, register_executor, is_exempt,
}
use carestechs_agent_orchest.Executors.Coverage.{
  Verdict, normalize_all, insert_name, sorted_names, missing_of, missing,
  validate_executor_coverage,
}

has-resolve : (key : Key) (bindings : Registry) → has key bindings ≡ is_some (resolve key bindings)
unfolding has resolve any find
has-resolve key [] = refl
has-resolve key (b ∷ rest) = ground (arith, has-resolve key rest)

resolve-append :
    (key : Key) (b : Binding) (bindings : Registry)
    → has (key_of b) bindings ≡ false
    → resolve key (bindings ++ (b ∷ []))
      ≡ (if same_key (key_of b) key then some b else resolve key bindings)
unfolding has resolve any find
resolve-append key b [] h = refl
resolve-append (ref, name) b (c ∷ rest) h = ground (
  arith,
  resolve-append (ref, name) b rest,
  str_eq_iff b.agent_ref ref,
  str_eq_iff b.node_name name,
  str_eq_iff c.agent_ref ref,
  str_eq_iff c.node_name name,
  str_eq_iff c.agent_ref b.agent_ref,
  str_eq_iff c.node_name b.node_name,
)

-- Registering a binding raises exactly when its node is bound already; else the node resolves to the
-- new binding, and every other node resolves as before.
pub register_executor-resolve :
    (b : Binding) (bindings : Registry) (key : Key)
    → ((register_executor b bindings ≡ none) × (is_some (resolve (key_of b) bindings) ≡ true))
      ⊎ ((after : Registry) × (register_executor b bindings ≡ some after)
          × (resolve (key_of b) bindings ≡ none)
          × (resolve key after
              ≡ (if same_key (key_of b) key then some b else resolve key bindings)))
unfolding register_executor
register_executor-resolve b bindings key = elim (Bool-cases (has (key_of b) bindings)) [
  | inl bound ↦ inl (ground arith, ground (arith, has-resolve (key_of b) bindings))
  | inr free ↦ inr (
    bindings ++ (b ∷ []),
    ground arith,
    ground (arith, has-resolve (key_of b) bindings),
    resolve-append key b bindings free,
  )
]

any-append :
    {A : Type 0} (p : A → Bool) (xs ys : List A) → any p (xs ++ ys) ≡ (any p xs || any p ys)
unfolding any
any-append p [] ys = refl
any-append p (x ∷ xs) ys = ground (arith, any-append p xs ys)

-- A name is in the sorted list exactly where it is in the list.
any-insert_name :
    (name added : String) (names : List String)
    → any (str_eq name) (insert_name added names) ≡ (str_eq name added || any (str_eq name) names)
unfolding any insert_name
any-insert_name name added [] = refl
any-insert_name name added (x ∷ rest) =
    ground (arith, any-insert_name name added rest, str_eq_iff added x)

any-sorted_names :
    (name : String) (names : List String)
    → any (str_eq name) (sorted_names names) ≡ any (str_eq name) names
unfolding any sorted_names
any-sorted_names name [] = refl
any-sorted_names name (x ∷ rest) =
    ground (arith, any-sorted_names name rest, any-insert_name name x (sorted_names rest))

-- The declarations name the node of a key.
abbrev pub declares : Key → List (String × List String) → Bool
declares (agent_ref, name) inputs = any (λ i. str_eq agent_ref i.0 && any (str_eq name) i.1) inputs

module _ (bindings : Registry) (exempt : Exemptions) where
  -- A node with a binding or an exemption.
  abbrev pub is_served : Key → Bool
  is_served key = is_some (resolve key bindings) || is_exempt key exempt

  -- A declared node with neither.
  abbrev pub is_offending : Key → List (String × List String) → Bool
  is_offending key inputs = declares key inputs && not (is_served key)

  any-missing_of :
      (ref name agent_ref : String) (names : List String)
      → any (same_key (ref, name)) (missing_of bindings exempt agent_ref names)
        ≡ (str_eq ref agent_ref && any (str_eq name) names && not (is_served (ref, name)))
  unfolding missing_of any
  any-missing_of ref name agent_ref [] = ground arith
  any-missing_of ref name agent_ref (x ∷ rest) = ground (
    arith,
    any-missing_of ref name agent_ref rest,
    has-resolve (agent_ref, x) bindings,
    str_eq_iff ref agent_ref,
    str_eq_iff name x,
  )

  any-missing :
      (ref name : String) (inputs : List (String × List String))
      → any (same_key (ref, name)) (missing bindings exempt inputs)
        ≡ is_offending (ref, name) inputs
  unfolding missing any
  any-missing ref name [] = refl
  any-missing ref name ((agent_ref, names) ∷ rest) = ground (
    arith,
    any-append (same_key (ref, name)) (missing_of bindings exempt agent_ref (sorted_names names))
        (missing bindings exempt rest),
    any-missing ref name rest,
    any-missing_of ref name agent_ref (sorted_names names),
    any-sorted_names name names,
  )

  -- Where every declaration is well formed, take any agent and node. If the check passes, then the
  -- node is not declared, or it is bound or exempt; both at once pass too. If it does not pass, then
  -- its error lists one key at least, and the node is listed exactly where it is declared and neither
  -- bound nor exempt: nothing else is listed, and nothing of that kind is left out.
  pub validate_executor_coverage-cases :
      (agents : List Fields) (inputs : List (String × List String)) (ref name : String)
      → normalize_all agents ≡ some inputs
      → ((validate_executor_coverage bindings exempt agents ≡ Verdict.covered)
          × (is_offending (ref, name) inputs ≡ false))
        ⊎ ((key : Key) × (keys : List Key) × (validate_executor_coverage bindings exempt agents
              ≡ Verdict.uncovered (key ∷ keys))
            × (any (same_key (ref, name)) (key ∷ keys) ≡ is_offending (ref, name) inputs))
  unfolding validate_executor_coverage
  validate_executor_coverage-cases agents inputs ref name h =
      go (missing bindings exempt inputs) refl
    where
      go :
          (keys : List Key)
          → missing bindings exempt inputs ≡ keys
          → ((validate_executor_coverage bindings exempt agents ≡ Verdict.covered)
              × (is_offending (ref, name) inputs ≡ false))
            ⊎ ((key : Key) × (keys : List Key) × (validate_executor_coverage bindings exempt agents
                  ≡ Verdict.uncovered (key ∷ keys))
                × (any (same_key (ref, name)) (key ∷ keys) ≡ is_offending (ref, name) inputs))
      go [] e = inl (
        ground (arith, e, h),
        sym (any-missing ref name inputs) ∙ ap (any (same_key (ref, name))) e,
      )
      go (key ∷ keys) e = inr (
        key,
        keys,
        ground (arith, e, h),
        ap (any (same_key (ref, name))) (sym e) ∙ any-missing ref name inputs,
      )

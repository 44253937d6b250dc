-- ===== src/Executors/Coverage.antt =====
-- src/app/modules/ai/executors/coverage.py: no node may be without a binding and an exemption.
use carestechs_agent_orchest.Prelude.{
  String, Bool, true, false, ◌||◌, ◌==◌, ltb, str_eq, Option, none, some, List, [], ◌∷◌, ◌++◌,
  if◌then◌else◌,
}
use Prim.Native.Char.{code}
use carestechs_agent_orchest.Json.Value.{
  Json, bool, int, decimal, text, array, Items, nil, cons, Fields, get, is_truthy, as_text,
  as_object,
}
use carestechs_agent_orchest.Executors.Registry.{Key, Registry, Exemptions, has, is_exempt}

-- What the check comes to: nothing, an error that lists the keys, or an error over a declaration.
pub data Verdict : Type 0 where
  covered : Verdict
  uncovered : List Key → Verdict
  bad_declaration : Verdict

abbrev filled : Option String → Option String
filled none = none
filled (some t) = if is_truthy (text t) then some t else none

abbrev name_of : Option Fields → Option String
name_of none = none
name_of (some node) = filled (as_text (get "name" node))

-- The names of the nodes that are mappings with a name.
unfoldable pub names_in : Items → List String
unfolding get
names_in nil = []
names_in (cons v rest) =
    let later = names_in rest in
    elim (name_of (as_object v)) [ none ↦ later | some name ↦ name ∷ later ]

-- `decl.get("nodes") or []`: a number cannot be iterated, and a text or a mapping has no mappings.
unfoldable pub node_names : Json → Option (List String)
unfolding names_in
node_names (array nodes) = some (names_in nodes)
node_names (bool true) = none
node_names (int n) = if is_truthy (int n) then none else some []
node_names (decimal s n m) = if is_truthy (decimal s n m) then none else some []
node_names _ = some []

-- `_normalize`: the agent's reference, a text that is not empty, and its nodes' names.
unfoldable pub normalize : Fields → Option (String × List String)
unfolding get node_names
normalize decl = elim (filled (as_text (get "ref" decl))) [
  | none ↦ none
  | some agent_ref ↦ elim (node_names (get "nodes" decl)) [
    | none ↦ none
    | some names ↦ some (agent_ref, names)
  ]
]

unfoldable pub normalize_all : List Fields → Option (List (String × List String))
unfolding normalize
normalize_all [] = some []
normalize_all (decl ∷ rest) =
    let later = normalize_all rest in
    elim (normalize decl) [
      | none ↦ none
      | some input ↦ elim later [ none ↦ none | some inputs ↦ some (input ∷ inputs) ]
    ]

-- `<` on texts: by the first code point that differs.
unfoldable pub precedes : String → String → Bool
precedes _ String.[] = false
precedes String.[] (String.◌∷◌ d t) = true
precedes (String.◌∷◌ c s) (String.◌∷◌ d t) =
    let later = precedes s t in if code c == code d then later else ltb (code c) (code d)

-- A name into a sorted list without repetitions.
unfoldable pub insert_name : String → List String → List String
unfolding precedes
insert_name name [] = name ∷ []
insert_name name (x ∷ rest) =
    let later = insert_name name rest in
    if str_eq name x then x ∷ rest else if precedes name x then name ∷ x ∷ rest else x ∷ later

-- `sorted(frozenset(names))`
unfoldable pub sorted_names : List String → List String
unfolding insert_name
sorted_names [] = []
sorted_names (name ∷ rest) = insert_name name (sorted_names rest)

module _ (bindings : Registry) (exempt : Exemptions) where
  abbrev pub is_covered : Key → Bool
  is_covered key = has key bindings || is_exempt key exempt

  unfoldable pub missing_of : String → List String → List Key
  unfolding has is_exempt
  missing_of agent_ref [] = []
  missing_of agent_ref (name ∷ rest) =
      let later = missing_of agent_ref rest in
      if is_covered (agent_ref, name) then later else (agent_ref, name) ∷ later

  unfoldable pub missing : List (String × List String) → List Key
  unfolding missing_of sorted_names
  missing [] = []
  missing ((agent_ref, names) ∷ rest) = missing_of agent_ref (sorted_names names) ++ missing rest

  abbrev verdict_of : List Key → Verdict
  verdict_of [] = Verdict.covered
  verdict_of (key ∷ keys) = Verdict.uncovered (key ∷ keys)

  -- `validate_executor_coverage`
  unfoldable pub validate_executor_coverage : List Fields → Verdict
  unfolding normalize_all missing
  validate_executor_coverage agents = elim (normalize_all agents) [
    | none ↦ Verdict.bad_declaration
    | some inputs ↦ verdict_of (missing inputs)
  ]

-- ===== src/Executors/Registry.antt =====
-- src/app/modules/ai/executors/registry.py and binding.py: one binding at most for each node of an
-- agent, and the nodes that are exempt from having one.
use carestechs_agent_orchest.Prelude.{
  ℕ, suc, String, Bool, ◌&&◌, Option, none, some, List, [], ◌∷◌, ◌++◌, find, any, str_eq, ltb,
  is_space, is_blank, if◌then◌else◌,
}
use Prim.Native.Char.{code}
use carestechs_agent_orchest.Enums.Runtime.{DispatchMode}
use carestechs_agent_orchest.Json.Value.{Fields}

-- `(agent_ref, node_name)`
abbrev pub Key : Type 0
Key = String × String

abbrev pub same_key : Key → Key → Bool
same_key (a, n) (b, m) = str_eq a b && str_eq n m

-- `ExecutorBinding`, and what the runtime reads of its executor: the name, the mode, and the builder
-- of additional intake, where it has one; a builder that raises is `none`. The extras are only
-- handed on to the executor.
pub record Binding : Type 0 where
  pub agent_ref : String
  pub node_name : String
  pub name : String
  pub mode : DispatchMode
  pub timeout_seconds : Option ℕ
  pub intake_builder : Option (Fields → Option Fields)

abbrev pub key_of : Binding → Key
key_of b = (b.agent_ref, b.node_name)

-- `_bindings`, in the order of registration.
abbrev pub Registry : Type 0
Registry = List Binding

-- `ExecutorRegistry.resolve`: without a binding it raises.
unfoldable pub resolve : Key → Registry → Option Binding
unfolding find
resolve key bindings = find (λ b. same_key (key_of b) key) bindings

-- `ExecutorRegistry.has`
unfoldable pub has : Key → Registry → Bool
unfolding any
has key bindings = any (λ b. same_key (key_of b) key) bindings

-- `ExecutorRegistry.register`: a key that is bound already raises.
unfoldable pub register_executor : Binding → Registry → Option Registry
unfolding has
register_executor b bindings = if has (key_of b) bindings then none else some (bindings ++ (b ∷ []))

-- `str.strip`, from the right and from both ends, and `len`.
unfoldable pub strip_right : String → String
unfolding is_space is_blank
strip_right String.[] = ""
strip_right (String.◌∷◌ c s) =
    let rest = strip_right s in if is_space (code c) && is_blank rest then "" else String.◌∷◌ c rest

unfoldable pub strip : String → String
unfolding is_space strip_right
strip String.[] = ""
strip (String.◌∷◌ c s) =
    let rest = strip s in if is_space (code c) then rest else strip_right (String.◌∷◌ c s)

unfoldable pub size : String → ℕ
size String.[] = 0
size (String.◌∷◌ c s) = suc (size s)

-- `_exemptions`: the keys, with their reasons.
abbrev pub Exemptions : Type 0
Exemptions = List (Key × String)

-- `_exemptions[key] = reason`
unfoldable pub set_reason : Key → String → Exemptions → Exemptions
set_reason key reason [] = (key, reason) ∷ []
set_reason key reason ((k, r) ∷ rest) =
    if same_key k key then (key, reason) ∷ rest else (k, r) ∷ set_reason key reason rest

-- `no_executor`: a reason of fewer than ten characters raises; a later reason takes the place of an
-- earlier one.
unfoldable pub no_executor : Key → String → Exemptions → Option Exemptions
unfolding strip size set_reason
no_executor key reason exempt =
    if ltb (size (strip reason)) 10 then none else some (set_reason key (strip reason) exempt)

unfoldable pub is_exempt : Key → Exemptions → Bool
unfolding any
is_exempt key exempt = any (λ e. same_key e.0 key) exempt

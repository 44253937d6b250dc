-- ===== src/Runtime/Bookkeeping.antt =====
-- src/app/modules/ai/runtime_deterministic.py: what the loop keeps in the run's memory under a key of
-- its own. Data that holds something else there makes the loop crash, which is `none`.
use carestechs_agent_orchest.Prelude.{String, Bool, false, ◌==◌, Option, none, some, if◌then◌else◌}
use Prim.Native.Char.{code}
use carestechs_agent_orchest.Json.Value.{
  Json, null, text, object, Fields, end, field, get, set, without, is_truthy, is_empty, as_text,
  as_object, or_empty,
}
use carestechs_agent_orchest.Runtime.State.{World}

-- `(memory_row.data if memory_row is not None else {}) or {}`
abbrev pub data_of : World → Fields
data_of w = elim w.memory [ none ↦ end | some whole ↦ whole ]

-- `data.get("__feat009") or {}`
unfoldable pub bookkeeping_of : Fields → Option Fields
unfolding get
bookkeeping_of whole =
    let kept = get "__feat009" whole in if is_truthy kept then as_object kept else some end

abbrev pub node_or : String → Json → Option String
node_or entry_node v = if is_truthy v then as_text v else some entry_node

abbrev pub result_or_none : Json → Option (Option Fields)
result_or_none null = some none
result_or_none (object fields) = some (some fields)
result_or_none _ = none

-- `(memory_snapshot, last_dispatch_result, current_node)`
pub record Snapshot : Type 0 where
  pub memory : Fields
  pub last_result : Option Fields
  pub current_node : String

infixl 5 ◌>>=◌
abbrev ◌>>=◌ : {A B : Type 0} → Option A → (A → Option B) → Option B
none >>= f = none
some a >>= f = f a

-- `_read_state`
unfoldable pub read_state : String → Fields → Option Snapshot
unfolding bookkeeping_of get without
read_state entry_node whole = do
  kept ← bookkeeping_of whole
  node ← node_or entry_node (get "current_node" kept)
  last ← result_or_none (get "last_dispatch_result" kept)
  some (record { memory = without "__feat009" whole; last_result = last; current_node = node })

-- `key.startswith("_")`
abbrev pub is_private : String → Bool
is_private String.[] = false
is_private (String.◌∷◌ c s) = code c == 95

-- The patch, but for its private keys, on top of the data.
unfoldable pub apply_patch : Fields → Fields → Fields
unfolding set
apply_patch end whole = whole
apply_patch (field k v rest) whole =
    apply_patch rest (if is_private k then whole else set k v whole)

-- `dict(envelope.result) if envelope.result else None`, as it is kept.
abbrev pub kept_result : Option Fields → Json
kept_result none = null
kept_result (some result) = if is_empty result then null else object result

-- `_write_state`: the data that it leaves.
unfoldable pub write_state : String → Option Fields → Fields → Fields → Option Fields
unfolding bookkeeping_of set apply_patch
write_state node result patch whole = do
  kept ← bookkeeping_of whole
  some (
      apply_patch patch (
        set "__feat009"
          (object
            (set "last_dispatch_result" (kept_result result) (set "current_node" (text node) kept)))
          whole))

-- `envelope.result["__memory_patch"]`, where there is a dict.
unfoldable pub patch_of : Option Fields → Fields
unfolding get
patch_of none = end
patch_of (some result) = or_empty (get "__memory_patch" result)

-- ===== src/Runtime/Kept.antt =====
-- What is read of the bookkeeping after it was written.
use carestechs_agent_orchest.Prelude.{
  String, true, false, Option, none, some, ◌≡◌, refl, sym, ap, ◌∙◌, arith, if◌then◌else◌, str_eq,
  str_eq_iff, Bool-cases, Option-cases, inl, inr, false≢true,
}
use carestechs_agent_orchest.Json.Value.{
  Json, text, object, Fields, end, field, get, set, lookup, without, is_truthy, is_empty,
}
use carestechs_agent_orchest.Json.Laws.{
  lookup-set, lookup-set_same, lookup-set_other, lookup-without, is_empty-set,
}
use carestechs_agent_orchest.Runtime.Bookkeeping.{
  Snapshot, bookkeeping_of, read_state, write_state, apply_patch, is_private, kept_result, node_or,
  result_or_none,
}

lookup-set_cong :
    (k key : String) (v : Json) (a b : Fields)
    → lookup key a ≡ lookup key b
    → lookup key (set k v a) ≡ lookup key (set k v b)
lookup-set_cong k key v a b h = ground (arith, lookup-set k key v a, lookup-set k key v b)

-- The patch writes a key, or leaves it, whatever the data holds there.
lookup-apply_patch :
    (key : String) (patch a b : Fields)
    → lookup key a ≡ lookup key b
    → lookup key (apply_patch patch a) ≡ lookup key (apply_patch patch b)
unfolding apply_patch
lookup-apply_patch key end a b h = h
lookup-apply_patch key (field k v rest) a b h = elim (Bool-cases (is_private k)) [
  | inl p ↦ ground (arith, lookup-apply_patch key rest a b h)
  | inr p ↦
      ground
        (arith, lookup-apply_patch key rest (set k v a) (set k v b) (lookup-set_cong k key v a b h))
]

-- A private key is left as it is.
lookup-apply_patch_private :
    (key : String) (patch whole : Fields)
    → is_private key ≡ true
    → lookup key (apply_patch patch whole) ≡ lookup key whole
unfolding apply_patch
lookup-apply_patch_private key end whole h = refl
lookup-apply_patch_private key (field k v rest) whole h = elim (Bool-cases (is_private k)) [
  | inl p ↦ ground (arith, lookup-apply_patch_private key rest whole h)
  | inr p ↦ ground (
    arith,
    lookup-apply_patch_private key rest (set k v whole) h,
    lookup-set k key v whole,
    str_eq_iff k key,
  )
]

abbrev written : String → Option Fields → Fields → Fields
written node result kept =
    set "last_dispatch_result" (kept_result result) (set "current_node" (text node) kept)

-- The result that is read back: an empty one is none.
abbrev pub result_kept : Option Fields → Option Fields
result_kept none = none
result_kept (some result) = if is_empty result then none else some result

result_or_none-kept_result :
    (r : Option Fields) → result_or_none (kept_result r) ≡ some (result_kept r)
result_or_none-kept_result none = refl
result_or_none-kept_result (some end) = refl
result_or_none-kept_result (some (field k v rest)) = refl

bookkeeping_of-written :
    (node : String) (result : Option Fields) (kept patch whole : Fields)
    → bookkeeping_of (apply_patch patch (set "__feat009" (object (written node result kept)) whole))
      ≡ some (written node result kept)
unfolding bookkeeping_of get
bookkeeping_of-written node result kept patch whole =
    let inner = written node result kept in
    ground (
      arith,
      lookup-apply_patch_private "__feat009" patch (set "__feat009" (object inner) whole) refl,
      lookup-set_same "__feat009" (object inner) whole,
      is_empty-set "last_dispatch_result" (kept_result result)
          (set "current_node" (text node) kept),
    )

write_state-some :
    (node : String) (result : Option Fields) (patch whole after : Fields)
    → write_state node result patch whole ≡ some after
    → (kept : Fields) × (after
        ≡ apply_patch patch (set "__feat009" (object (written node result kept)) whole))
unfolding write_state
write_state-some node result patch whole after h = elim (Option-cases (bookkeeping_of whole)) [
  | inl e ↦ ground (arith, e, h)
  | inr (kept, e) ↦ (kept, ground (arith, e, h))
]

get-written_node :
    (node : String) (result : Option Fields) (kept : Fields)
    → get "current_node" (written node result kept) ≡ text node
unfolding get
get-written_node node result kept = ground (
  arith,
  lookup-set_other "last_dispatch_result" "current_node" (kept_result result)
      (set "current_node" (text node) kept) refl,
  lookup-set_same "current_node" (text node) kept,
)

get-written_result :
    (node : String) (result : Option Fields) (kept : Fields)
    → get "last_dispatch_result" (written node result kept) ≡ kept_result result
unfolding get
get-written_result node result kept = ground (
  arith,
  lookup-set_same "last_dispatch_result" (kept_result result) (set "current_node" (text node) kept),
)

pub read_state-some :
    (entry_node node : String) (whole kept : Fields) (last : Option Fields)
    → bookkeeping_of whole ≡ some kept
    → node_or entry_node (get "current_node" kept) ≡ some node
    → result_or_none (get "last_dispatch_result" kept) ≡ some last
    → read_state entry_node whole
      ≡ some
          (record { memory = without "__feat009" whole; last_result = last; current_node = node })
unfolding read_state
read_state-some entry_node node whole kept last b n l = rw (b, n, l) refl

node_or-text :
    (entry_node node : String)
    → node_or entry_node (text node) ≡ some (if is_truthy (text node) then node else entry_node)
node_or-text entry_node String.[] = refl
node_or-text entry_node (String.◌∷◌ c s) = refl

not_bookkeeping : (key : String) → is_private key ≡ false → str_eq "__feat009" key ≡ false
not_bookkeeping key p = elim (Bool-cases (str_eq "__feat009" key)) [
  | inl same ↦
      absurd (false≢true (sym p ∙ ap is_private (sym ((str_eq_iff "__feat009" key).0 same))))
  | inr other ↦ other
]

-- What the loop reads after it wrote its state: the node, where its name is not empty, or else the
-- entry node; the result, an empty one as none; and of every key of the memory that does not begin
-- with an underscore what the patch has left in the data.
pub read_state-write_state :
    (entry_node node key : String) (result : Option Fields) (patch whole after : Fields)
    → is_private key ≡ false
    → write_state node result patch whole ≡ some after
    → (s : Snapshot) × (read_state entry_node after ≡ some s)
      × (s.current_node ≡ (if is_truthy (text node) then node else entry_node))
      × (s.last_result ≡ result_kept result)
      × (lookup key s.memory ≡ lookup key (apply_patch patch whole))
read_state-write_state entry_node node key result patch whole after p h =
    let (kept, e) = write_state-some node result patch whole after h in
    let inner = written node result kept in
    let b : bookkeeping_of after ≡ some inner =
      ap bookkeeping_of e ∙ bookkeeping_of-written node result kept patch whole in
    let n =
      ap (node_or entry_node) (get-written_node node result kept) ∙ node_or-text entry_node node in
    let l =
      ap result_or_none (get-written_result node result kept) ∙ result_or_none-kept_result result in
    let other = not_bookkeeping key p in
    (
      _,
      read_state-some entry_node _ after inner (result_kept result) b n l,
      refl,
      refl,
      lookup-without "__feat009" key after other
          ∙ ap (lookup key) e
          ∙ lookup-apply_patch key patch (set "__feat009" (object inner) whole) whole
              (lookup-set_other "__feat009" key (object inner) whole other),
    )

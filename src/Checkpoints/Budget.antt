-- ===== src/Checkpoints/Budget.antt =====
-- Rejections at a checkpoint are tallied, and the flow's predicate stops them at its bound.
use carestechs_agent_orchest.Prelude.{
  ℕ, zero, suc, String, ◌||◌, Option, none, some, ◌==◌, ltb, ◌≡◌, refl, arith, str_eq_refl,
}
use carestechs_agent_orchest.Json.Value.{
  pos, Json, null, int, text, object, Fields, end, field, lookup, get, set,
}
use carestechs_agent_orchest.Json.Laws.{lookup-set_same}
use carestechs_agent_orchest.Flow.Predicates.{
  Env, to_int, entries_below, checkpoint_rejections_under_bound,
}
use carestechs_agent_orchest.Runtime.Bookkeeping.{apply_patch}
use carestechs_agent_orchest.Checkpoints.Patches.{rejection_patch, sidecar, or_text}

-- A rejection, merged into the memory as the loop does it; the n-th of them comes with its feedback.
unfoldable pub reject_once : Env → String → Option String → Fields → Option Fields
unfolding rejection_patch apply_patch
reject_once env checkpoint feedback memory = elim (rejection_patch env checkpoint feedback memory) [
  | none ↦ none
  | some patch ↦ some (apply_patch patch memory)
]

unfoldable pub rejected : Env → String → (ℕ → Option String) → ℕ → Fields → Option Fields
unfolding reject_once
rejected env checkpoint feedback zero memory = some memory
rejected env checkpoint feedback (suc n) memory = elim (rejected env checkpoint feedback n memory) [
  | none ↦ none
  | some before ↦ reject_once env checkpoint (feedback n) before
]

abbrev entry : Option String → ℕ → Json
entry feedback n =
    object (field "feedback" (text (or_text feedback "")) (field "attempt" (int (pos n)) end))

-- What the sidecar holds after n rejections.
abbrev tallied : String → (ℕ → Option String) → ℕ → Json
tallied checkpoint feedback zero = null
tallied checkpoint feedback (suc n) = object (field checkpoint (entry (feedback n) (suc n)) end)

module _ (env : Env) (checkpoint : String) where
  reject_once-first :
      (feedback : Option String) (memory : Fields)
      → get "rejections" memory ≡ null
      → (after : Fields) × (reject_once env checkpoint feedback memory ≡ some after)
        × (get "rejections" after ≡ object (field checkpoint (entry feedback 1) end))
  unfolding reject_once rejection_patch apply_patch sidecar to_int get
  reject_once-first feedback memory h = (
    set "rejections" (object (field checkpoint (entry feedback 1) end)) memory,
    ground (arith, h),
    ground (
      arith,
      lookup-set_same "rejections" (object (field checkpoint (entry feedback 1) end)) memory,
    ),
  )

  reject_once-next :
      (n : ℕ) (old feedback : Option String) (memory : Fields)
      → get "rejections" memory ≡ object (field checkpoint (entry old n) end)
      → (after : Fields) × (reject_once env checkpoint feedback memory ≡ some after)
        × (get "rejections" after ≡ object (field checkpoint (entry feedback (suc n)) end))
  unfolding reject_once rejection_patch apply_patch sidecar to_int get lookup set
  reject_once-next n old feedback memory h = (
    set "rejections" (object (field checkpoint (entry feedback (suc n)) end)) memory,
    ground (arith, h, str_eq_refl checkpoint),
    ground (
      arith,
      lookup-set_same "rejections" (object (field checkpoint (entry feedback (suc n)) end)) memory,
    ),
  )

  rejected-tallied :
      (feedback : ℕ → Option String) (n : ℕ) (memory : Fields)
      → get "rejections" memory ≡ null
      → (after : Fields) × (rejected env checkpoint feedback n memory ≡ some after)
        × (get "rejections" after ≡ tallied checkpoint feedback n)
  unfolding rejected
  rejected-tallied feedback zero memory h = (memory, refl, h)
  rejected-tallied feedback (suc zero) memory h = reject_once-first (feedback 0) memory h
  rejected-tallied feedback (suc (suc n)) memory h =
      let (before, e, c) = rejected-tallied feedback (suc n) memory h in
      let (after, r, k) = reject_once-next (suc n) (feedback n) (feedback (suc n)) before c in
      (after, ground (arith, e, r), k)

  below_bound :
      (feedback : ℕ → Option String) (n bound : ℕ) (memory : Fields) (last : Option Fields)
      → env.max_checkpoint_rejections ≡ pos bound
      → get "rejections" memory ≡ tallied checkpoint feedback n
      → checkpoint_rejections_under_bound env memory last ≡ some (n == 0 || ltb n bound)
  unfolding checkpoint_rejections_under_bound entries_below get to_int lookup
  below_bound feedback zero bound memory last b h = ground (arith, h)
  below_bound feedback (suc n) bound memory last b h = ground (arith, h, b)

  -- In a memory without rejections, any number of rejections at one checkpoint succeed one after the
  -- other, whatever their feedback. Afterwards the predicate that sends a rejected run back lets it
  -- go on exactly while there were none or fewer than the bound, so that the rejection which reaches
  -- the bound is the last.
  pub rejected-under_bound :
      (feedback : ℕ → Option String) (n bound : ℕ) (memory : Fields) (last : Option Fields)
      → env.max_checkpoint_rejections ≡ pos bound
      → get "rejections" memory ≡ null
      → (after : Fields) × (rejected env checkpoint feedback n memory ≡ some after)
        × (checkpoint_rejections_under_bound env after last ≡ some (n == 0 || ltb n bound))
  rejected-under_bound feedback n bound memory last b h =
      let (after, e, c) = rejected-tallied feedback n memory h in
      (after, e, below_bound feedback n bound after last b c)

-- ===== src/Supervisor/Heap.antt =====
-- Lemmas on the heap of futures and on the places it has given out (modules/ai/supervisor.py).
use carestechs_agent_orchest.Prelude.{
  ℕ, suc, ◌<◌, Bool, true, false, none, some, List, [], ◌∷◌, ◌==◌, ltb, all, ◌≡◌, refl, arith,
  if◌then◌else◌,
}
use carestechs_agent_orchest.Supervisor.State.{
  Future, pending, resolved, dispatch_cancelled, Supervisor, settle, value_at, settle_at,
}

-- No future stands at a place that is yet to be given out.
abbrev pub below_next : ℕ → List (ℕ × Future) → Bool
below_next next heap = all (λ e. ltb e.0 next) heap

pub record IsFresh (s : Supervisor) : Type 0 where
  pub at : all (λ e. ltb e.0 s.next_place) s.heap ≡ true

pub value_at-settle_at :
    (place other : ℕ) (f : Future) (heap : List (ℕ × Future))
    → value_at place (settle_at other f heap) ≡ elim (value_at place heap) [
      | none ↦ none
      | some g ↦ some (if place == other then settle f g else g)
    ]
unfolding value_at settle_at
value_at-settle_at place other f [] = refl
value_at-settle_at place other f ((k, g) ∷ rest) =
    ground (arith, value_at-settle_at place other f rest)

pub below_next-settle_at :
    (next place : ℕ) (f : Future) (heap : List (ℕ × Future))
    → below_next next heap ≡ true
    → below_next next (settle_at place f heap) ≡ true
unfolding all settle_at
below_next-settle_at next place f [] h = refl
below_next-settle_at next place f ((k, g) ∷ rest) h =
    ground (arith, below_next-settle_at next place f rest)

pub below_next-suc :
    (next : ℕ) (heap : List (ℕ × Future))
    → below_next next heap ≡ true
    → below_next (suc next) heap ≡ true
unfolding all
below_next-suc next [] h = refl
below_next-suc next ((k, g) ∷ rest) h = ground (arith, below_next-suc next rest)

pub below_next-place :
    (next place : ℕ) (f : Future) (heap : List (ℕ × Future))
    → below_next next heap ≡ true
    → value_at place heap ≡ some f
    → place < next
unfolding all value_at
below_next-place next place f [] h v = ground arith
below_next-place next place f ((k, g) ∷ rest) h v =
    ground (arith, below_next-place next place f rest)

abbrev pub is_done : Future → Bool
is_done pending = false
is_done _ = true

pub value_at-settle_at-done :
    (place other : ℕ) (f g : Future) (heap : List (ℕ × Future))
    → is_done f ≡ true
    → value_at place heap ≡ some f
    → value_at place (settle_at other g heap) ≡ some f
unfolding value_at settle_at
value_at-settle_at-done place other f g [] done v = ground arith
value_at-settle_at-done place other pending g ((k, x) ∷ rest) done v = ground arith
value_at-settle_at-done place other (resolved e) g ((k, pending) ∷ rest) done v =
    ground (arith, value_at-settle_at-done place other (resolved e) g rest)
value_at-settle_at-done place other (resolved e) g ((k, resolved x) ∷ rest) done v =
    ground (arith, value_at-settle_at-done place other (resolved e) g rest)
value_at-settle_at-done place other (resolved e) g ((k, dispatch_cancelled) ∷ rest) done v =
    ground (arith, value_at-settle_at-done place other (resolved e) g rest)
value_at-settle_at-done place other dispatch_cancelled g ((k, pending) ∷ rest) done v =
    ground (arith, value_at-settle_at-done place other dispatch_cancelled g rest)
value_at-settle_at-done place other dispatch_cancelled g ((k, resolved x) ∷ rest) done v =
    ground (arith, value_at-settle_at-done place other dispatch_cancelled g rest)
value_at-settle_at-done place other dispatch_cancelled g ((k, dispatch_cancelled) ∷ rest) done v =
    ground (arith, value_at-settle_at-done place other dispatch_cancelled g rest)

pub value_at-new :
    (place : ℕ) (f : Future) (next : ℕ) (heap : List (ℕ × Future))
    → below_next next heap ≡ true
    → value_at place heap ≡ some f
    → value_at place ((next, pending) ∷ heap) ≡ some f
unfolding value_at
value_at-new place f next heap below there =
    ground (arith, there, below_next-place next place f heap below there)

pub settle_at-pending :
    (place : ℕ) (f : Future) (heap : List (ℕ × Future))
    → value_at place heap ≡ some pending
    → value_at place (settle_at place f heap) ≡ some f
unfolding value_at settle_at
settle_at-pending place f [] h = ground (arith, h)
settle_at-pending place f ((k, pending) ∷ rest) h = ground (arith, settle_at-pending place f rest)
settle_at-pending place f ((k, resolved x) ∷ rest) h =
    ground (arith, settle_at-pending place f rest)
settle_at-pending place f ((k, dispatch_cancelled) ∷ rest) h =
    ground (arith, settle_at-pending place f rest)

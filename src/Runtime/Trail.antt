-- ===== src/Runtime/Trail.antt =====
-- The nodes that a run goes through: a path in its agent's flow, its steps numbered from 1.
use carestechs_agent_orchest.Prelude.{
  ℕ, suc, String, Bool, true, false, Option, none, some, List, [], ◌∷◌, ◌≡◌, ◌⊎◌, inl, inr, refl,
  sym, ap, ◌∙◌, arith, if◌then◌else◌, Bool-cases, Option-cases, false≢true, str_eq, str_eq_iff,
}
use carestechs_agent_orchest.Json.Value.{Json, text, Fields, get, is_truthy, set}
use carestechs_agent_orchest.Json.Laws.{lookup-set_other}
use carestechs_agent_orchest.Executors.Registry.{Binding, resolve}
use carestechs_agent_orchest.Flow.Resolver.{Declaration}
use carestechs_agent_orchest.Flow.Targets.{Target}
use carestechs_agent_orchest.Runtime.State.{World}
use carestechs_agent_orchest.Runtime.Turns.{Event, Turn}
use carestechs_agent_orchest.Runtime.Status.{cancel_run}
use carestechs_agent_orchest.Runtime.Bookkeeping.{
  Snapshot, data_of, is_private, bookkeeping_of, node_or, result_or_none, read_state, write_state,
  patch_of,
}
use carestechs_agent_orchest.Runtime.Kept.{read_state-write_state}
use carestechs_agent_orchest.Runtime.Setup.{
  Setup, Exit, Heard, got, was_cancelled, wait_failed, nothing, happen_one, happen, build_intake,
}
use carestechs_agent_orchest.Runtime.Node.{
  Call, insert_rows, commit_terminal, with_data, conclude, run_executor, mark_sent, execute_bound,
  execute_node, call_of, with_intake, with_binding,
}
use carestechs_agent_orchest.Runtime.Frames.{log, execute_bound-Frame}

-- The node where the loop stands, after the steps of a log.
abbrev pub last_node : Declaration → List (ℕ × String) → String
last_node d [] = d.entry_node
last_node d ((n, node) ∷ rest) = if is_truthy (text node) then node else d.entry_node

-- Steps numbered from 1, the newest first, each at a target that its predecessor's node declares.
pub data Trail (d : Declaration) : ℕ → List (ℕ × String) → Type 0 where
  start : Trail d 0 []
  step :
      (n : ℕ) (node : String) (rest : List (ℕ × String))
      → Trail d n rest
      → Target (text node) (get (last_node d rest) d.transitions)
      → Trail d (suc n) ((suc n, node) ∷ rest)

-- The node that the bookkeeping names, or the entry node; none where it cannot be read.
unfoldable pub place : String → Fields → Option String
unfolding bookkeeping_of get
place entry_node whole = elim (bookkeeping_of whole) [
  | none ↦ none
  | some kept ↦ node_or entry_node (get "current_node" kept)
]

-- The place is the node of the last step.
pub record Stands (d : Declaration) (w : World) : Type 0 where
  pub at : (v : String) → place d.entry_node (data_of w) ≡ some v → v ≡ last_node d (log w)

pub place-read_state :
    (entry_node : String) (whole : Fields) (s : Snapshot)
    → read_state entry_node whole ≡ some s
    → place entry_node whole ≡ some s.current_node
unfolding place read_state
place-read_state entry_node whole s h = elim (Option-cases (bookkeeping_of whole)) [
  | inl e ↦ ground (arith, e)
  | inr (kept, e) ↦ elim (Option-cases (node_or entry_node (get "current_node" kept))) [
    | inl n ↦ ground (arith, e, n)
    | inr (v, n) ↦ elim (Option-cases (result_or_none (get "last_dispatch_result" kept))) [
      | inl l ↦ ground (arith, e, n, l)
      | inr (r, l) ↦ ground (arith, e, n, l)
    ]
  ]
]

place-set :
    (entry_node key : String) (v : Json) (whole : Fields)
    → is_private key ≡ false
    → place entry_node (set key v whole) ≡ place entry_node whole
unfolding place bookkeeping_of get
place-set entry_node key v whole p =
    let other : str_eq key "__feat009" ≡ false = elim (Bool-cases (str_eq key "__feat009")) [
      | inl same ↦ absurd (false≢true (sym p ∙ ap is_private ((str_eq_iff key "__feat009").0 same)))
      | inr other ↦ other
    ] in
    ground (arith, lookup-set_other key "__feat009" v whole other)

Stands-happen_one :
    (d : Declaration) (id : ℕ) (e : Event) (w : World) → Stands d w → Stands d (happen_one id e w)
unfolding happen_one cancel_run
Stands-happen_one d id (Event.cancelled reason at) w st = record { at = st.at }
Stands-happen_one d id (Event.marked m) w st = record { at = st.at }
Stands-happen_one d id (Event.wrote key value) w st = go (is_private key) refl
  where
    go :
        (b : Bool)
        → is_private key ≡ b
        → Stands d (if b then w else record w { memory = some (set key value (data_of w)) })
    go true p = st
    go false p = record {
      at = λ v h. st.at v (sym (place-set d.entry_node key value (data_of w) p) ∙ h);
    }

pub Stands-happen :
    (d : Declaration) (id : ℕ) (es : List Event) (w : World)
    → Stands d w
    → Stands d (happen id es w)
unfolding happen
Stands-happen d id [] w st = st
Stands-happen d id (e ∷ es) w st =
    Stands-happen d id es (happen_one id e w) (Stands-happen_one d id e w st)

-- The last writes of a node that ends normally.
conclude-done :
    (call : Call) (x : Heard) (w : World)
    → (conclude call x w).0 ≡ Exit.done
    → (result : Option Fields) × (patch : Fields) × (before : Fields) × (write_state call.node
          result patch before
        ≡ some (data_of (conclude call x w).1))
unfolding conclude
conclude-done call was_cancelled w h = ground arith
conclude-done call wait_failed w h = ground arith
conclude-done call nothing w h = ground arith
conclude-done call (got e) w h =
    go (write_state call.node e.result (patch_of e.result) (data_of (commit_terminal call e w)))
      refl h
  where
    go :
        (o : Option Fields)
        → write_state call.node e.result (patch_of e.result) (data_of (commit_terminal call e w))
          ≡ o
        → (with_data e (commit_terminal call e w) o).0 ≡ Exit.done
        → (result : Option Fields) × (patch : Fields) × (before : Fields) × (write_state call.node
              result patch before
            ≡ some (data_of (with_data e (commit_terminal call e w) o).1))
    go none q h = ground arith
    go (some whole) q h = (e.result, patch_of e.result, data_of (commit_terminal call e w), q)

-- What a call of a node comes to: no step where it has no binding or no intake, else its step, and the
-- place is that node where the call ends normally.
pub record Enters (d : Declaration) (number : ℕ) (node : String) (w : World) (r : Exit × World)
    : Type 0 where
  pub steps : (log r.1 ≡ log w) ⊎ (log r.1 ≡ (number, node) ∷ log w)
  pub stands : r.0 ≡ Exit.done → (log r.1 ≡ (number, node) ∷ log w) × Stands d r.1

place-write_state :
    (entry_node node v : String) (result : Option Fields) (patch before after : Fields)
    → write_state node result patch before ≡ some after
    → place entry_node after ≡ some v
    → v ≡ (if is_truthy (text node) then node else entry_node)
place-write_state entry_node node v result patch before after e q =
    let (s, r, n, _, _) =
      read_state-write_state entry_node node "plans" result patch before after refl e in
    ground (arith, n, q, place-read_state entry_node after s r)

execute_bound-Enters :
    (call : Call) (w : World)
    → Enters call.setup.declaration call.number call.node w (execute_bound call w)
unfolding execute_bound insert_rows
execute_bound-Enters call w =
    let heard = run_executor call (mark_sent call (insert_rows call w)) in
    let steps : log (execute_bound call w).1 ≡ (call.number, call.node) ∷ log w =
      (execute_bound-Frame call w).steps in
    record {
      steps = inr steps;
      stands = λ h.
          let (result, patch, before, e) = conclude-done call heard.0 heard.1 h in
          (
            steps,
            record {
              at = λ v q.
                  place-write_state call.setup.declaration.entry_node call.node v result patch
                    before _ e q
                  ∙ ap (last_node call.setup.declaration) (sym steps);
            },
          );
    }

module _ (setup : Setup) (turn : Turn) (number : ℕ) where
  with_intake-Enters :
      (node : String) (binding : Binding) (o : Option Fields) (w : World)
      → Enters setup.declaration number node w (with_intake setup turn number node binding o w)
  with_intake-Enters node binding none w = record { steps = inl refl; stands = λ h. ground arith }
  with_intake-Enters node binding (some intake) w =
      execute_bound-Enters (call_of setup turn number node binding intake) w

  pub execute_node-Enters :
      (node : String) (w : World)
      → Enters setup.declaration number node w (execute_node setup turn number node w)
  unfolding execute_node
  execute_node-Enters node w = go (resolve (setup.agent_ref, node) setup.bindings)
    where
      go :
          (o : Option Binding)
          → Enters setup.declaration number node w (with_binding setup turn number node o w)
      go none = record { steps = inl refl; stands = λ h. ground arith }
      go (some binding) = with_intake-Enters node binding (build_intake setup node binding w) w

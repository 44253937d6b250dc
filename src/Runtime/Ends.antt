-- ===== src/Runtime/Ends.antt =====
-- How the loop ends: within its budget where no iteration hangs, and then the run is over for good.
use carestechs_agent_orchest.Prelude.{
  ℕ, zero, suc, ◌+◌, ◌<◌, ◌≤◌, String, Bool, true, false, Option, none, some, ◌≡◌, refl, ap, sym,
  subst, ◌∙◌, arith, if◌then◌else◌, inl, inr, ◌⊎◌, false≢true, Bool-cases,
}
use carestechs_agent_orchest.Enums.Runtime.{StopReason}
use carestechs_agent_orchest.Json.Value.{Fields, as_text}
use carestechs_agent_orchest.Executors.Registry.{Binding, resolve}
use carestechs_agent_orchest.Flow.Resolver.{Decision, Resolved, resolved, raised}
use carestechs_agent_orchest.Runtime.State.{Run, World, is_over}
use carestechs_agent_orchest.Runtime.Turns.{Turn}
use carestechs_agent_orchest.Runtime.Status.{unless_over, terminate, status_for, mark_running}
use carestechs_agent_orchest.Runtime.Bookkeeping.{Snapshot, read_state, data_of}
use carestechs_agent_orchest.Runtime.Setup.{Setup, Exit, happen, build_intake}
use carestechs_agent_orchest.Runtime.Node.{
  insert_rows, execute_node, call_of, with_intake, with_binding,
}
use carestechs_agent_orchest.Runtime.Loop.{
  Iteration, goes_on, returns, hangs, stop, after_node, enter, follow, decide, over_budget, iterate,
  loop, run_deterministic_loop,
}
use carestechs_agent_orchest.Runtime.Hangs.{comes_back, iterate-ends}
use carestechs_agent_orchest.Runtime.Frames.{
  is_settled, terminate-Frame, happen-Frame, execute_bound-Frame,
}

abbrev pub world_of : Iteration → World
world_of (goes_on w) = w
world_of (returns w) = w
world_of (hangs w) = w

abbrev pub is_return : Iteration → Bool
is_return (goes_on w) = false
is_return (returns w) = true
is_return (hangs w) = false

-- A run that is over stays as it is, and where the loop returns the run is over.
pub record Ends (w : World) (i : Iteration) : Type 0 where
  pub kept : is_settled w.run ≡ true → (world_of i).run ≡ w.run
  pub over : is_return i ≡ true → is_settled (world_of i).run ≡ true

status_for-over : (reason : StopReason) → is_over (status_for reason) ≡ true
status_for-over StopReason.done_node = refl
status_for-over StopReason.policy_terminated = refl
status_for-over StopReason.budget_exceeded = refl
status_for-over StopReason.error = refl
status_for-over StopReason.cancelled = refl

unless_over-over :
    (change : Run → Run) (run : Option Run)
    → ((r : Run) → is_over (change r).status ≡ true)
    → is_settled (unless_over change run) ≡ true
unless_over-over change none h = refl
unless_over-over change (some run) h = go (is_over run.status) refl
  where
    go :
        (b : Bool)
        → is_over run.status ≡ b
        → is_settled (if b then some run else some (change run)) ≡ true
    go true e = e
    go false e = h run

returns-Ends :
    (w : World) (reason : StopReason) (more : Fields) (at : ℕ)
    → Ends w (returns (terminate reason more at w))
unfolding terminate
returns-Ends w reason more at = record {
  kept = (terminate-Frame reason more at w).run;
  over = λ _. unless_over-over _ w.run (λ r. status_for-over reason);
}

Ends-if :
    (w : World) (b : Bool) (i j : Iteration) → Ends w i → Ends w j → Ends w (if b then i else j)
Ends-if w true i j e f = e
Ends-if w false i j e f = f

Ends-after :
    (w w' : World) (i : Iteration)
    → (is_settled w.run ≡ true → w'.run ≡ w.run)
    → Ends w' i
    → Ends w i
Ends-after w w' i f e = record { kept = λ h. e.kept (ap is_settled (f h) ∙ h) ∙ f h; over = e.over }

module _ (setup : Setup) (turn : Turn) where
  stop-Ends : (reason : StopReason) (w : World) → Ends w (stop setup turn reason w)
  stop-Ends reason w = returns-Ends w reason _ _

  with_intake-kept :
      (number : ℕ) (node : String) (binding : Binding) (o : Option Fields) (w : World)
      → is_settled w.run ≡ true
      → (with_intake setup turn number node binding o w).1.run ≡ w.run
  unfolding insert_rows
  with_intake-kept number node binding none w h = refl
  with_intake-kept number node binding (some intake) w h =
      (execute_bound-Frame (call_of setup turn number node binding intake) w).run h

  with_binding-kept :
      (number : ℕ) (node : String) (o : Option Binding) (w : World)
      → is_settled w.run ≡ true
      → (with_binding setup turn number node o w).1.run ≡ w.run
  with_binding-kept number node none w h = refl
  with_binding-kept number node (some binding) w h =
      with_intake-kept number node binding (build_intake setup node binding w) w h

  execute_node-kept :
      (number : ℕ) (node : String) (w : World)
      → is_settled w.run ≡ true
      → (execute_node setup turn number node w).1.run ≡ w.run
  unfolding execute_node
  execute_node-kept number node w h =
      with_binding-kept number node (resolve (setup.agent_ref, node) setup.bindings) w h

  after_node-Ends : (r : Exit × World) → Ends r.1 (after_node setup turn r)
  after_node-Ends (Exit.done, w) = record { kept = λ h. refl; over = λ h. absurd (false≢true h) }
  after_node-Ends (Exit.cancelled, w) = returns-Ends w _ _ _
  after_node-Ends (Exit.crashed, w) = returns-Ends w _ _ _
  after_node-Ends (Exit.hung, w) = record { kept = λ h. refl; over = λ h. absurd (false≢true h) }

  enter-Ends : (count : ℕ) (o : Option String) (w : World) → Ends w (enter setup turn count o w)
  enter-Ends count none w = returns-Ends w _ _ _
  enter-Ends count (some node) w =
      let r = execute_node setup turn (suc count) node w in
      Ends-after w r.1 (after_node setup turn r) (execute_node-kept (suc count) node w)
        (after_node-Ends r)

  follow-Ends :
      (count : ℕ) (r : Resolved Decision) (w : World) → Ends w (follow setup turn count r w)
  follow-Ends count (raised e) w = returns-Ends w _ _ _
  follow-Ends count (resolved (Decision.terminal reason)) w = returns-Ends w _ _ _
  follow-Ends count (resolved (Decision.next_node v)) w = enter-Ends count (as_text v) w

  decide-Ends : (count : ℕ) (o : Option Snapshot) (w : World) → Ends w (decide setup turn count o w)
  decide-Ends count none w = returns-Ends w _ _ _
  decide-Ends count (some s) w = follow-Ends count _ w

  pub iterate-Ends : (count : ℕ) (w : World) → Ends w (iterate setup turn count w)
  unfolding iterate
  iterate-Ends count w =
      let later = happen turn.dispatch_id turn.before w in
      let snapshot = read_state setup.declaration.entry_node (data_of later) in
      Ends-after w later (iterate setup turn count w)
        ((happen-Frame turn.dispatch_id turn.before w).run)
        (Ends-if later turn.cancel_seen _ _ (stop-Ends StopReason.cancelled later) (
          Ends-if later (over_budget setup turn count) _ _
            (stop-Ends StopReason.budget_exceeded later) (decide-Ends count snapshot later)))

  -- The loop goes on only within its budget.
  pub iterate-within :
      (count : ℕ) (w w' : World)
      → iterate setup turn count w ≡ goes_on w'
      → over_budget setup turn count ≡ false
  unfolding iterate
  iterate-within count w w' h = ground arith

  pub iterate-allowed :
      (count : ℕ) (w w' : World)
      → iterate setup turn count w ≡ hangs w'
      → over_budget setup turn count ≡ false
  unfolding iterate
  iterate-allowed count w w' h = ground arith

pub Iteration-cases :
    (i : Iteration)
    → ((w : World) × (i ≡ returns w))
      ⊎ ((w : World) × (i ≡ goes_on w))
      ⊎ ((w : World) × (i ≡ hangs w))
Iteration-cases (returns w) = inl (w, refl)
Iteration-cases (goes_on w) = inr (inl (w, refl))
Iteration-cases (hangs w) = inr (inr (w, refl))

module _ (setup : Setup) (turns : ℕ → Turn) where
  -- Something that the loop waits for never comes, in an iteration that the budget allows.
  abbrev pub Stalls : Type 0
  Stalls = (i : ℕ) × (i < setup.max_steps) × (comes_back (turns i) ≡ false)

  hangs-Stalls :
      (count : ℕ) (w w' : World)
      → iterate setup (turns count) count w ≡ hangs w'
      → over_budget setup (turns count) count ≡ false
      → 0 < setup.max_steps
      → Stalls
  hangs-Stalls count w w' e within p = (
    count,
    ground (arith, within),
    elim (Bool-cases (comes_back (turns count))) [
      | inr stalls ↦ stalls
      | inl back ↦ ground (arith, e, iterate-ends setup (turns count) back count w)
    ],
  )

  -- The loop returns where its fuel exceeds what is left of its budget, unless it stalls.
  loop-returns :
      (fuel count : ℕ) (w : World)
      → 0 < setup.max_steps
      → count ≤ setup.max_steps
      → setup.max_steps < count + fuel
      → ((w' : World) × (loop setup turns fuel count w ≡ some w')) ⊎ Stalls
  unfolding loop
  loop-returns zero count w p c f = ground arith
  loop-returns (suc fuel) count w p c f =
      elim (Iteration-cases (iterate setup (turns count) count w)) [
        | inl (w', e) ↦ inl (w', ground (arith, e))
        | inr (inl (w', e)) ↦
            elim (loop-returns fuel (suc count) w' p
              (ground (arith, iterate-within setup (turns count) count w w' e)) (ground arith)) [
                | inl (last, h) ↦ inl (last, ground (arith, e, h))
                | inr stalls ↦ inr stalls
              ]
        | inr (inr (w', e)) ↦
            inr (hangs-Stalls count w w' e (iterate-allowed setup (turns count) count w w' e) p)
      ]

  loop-Ends :
      (fuel count : ℕ) (w w' : World)
      → loop setup turns fuel count w ≡ some w'
      → (is_settled w'.run ≡ true) × (is_settled w.run ≡ true → w'.run ≡ w.run)
  unfolding loop
  loop-Ends zero count w w' h = ground arith
  loop-Ends (suc fuel) count w w' h = elim (Iteration-cases (iterate setup (turns count) count w)) [
    | inl (v, e) ↦
        let same : v ≡ w' = ground (arith, e, h) in
        let ends : Ends w (returns v) =
          subst (Ends w) e (iterate-Ends setup (turns count) count w) in
        (
          ap (λ x. is_settled x.run) (sym same) ∙ ends.over refl,
          λ s. ap (λ x. x.run) (sym same) ∙ ends.kept s,
        )
    | inr (inr (v, e)) ↦ ground (arith, e, h)
    | inr (inl (v, e)) ↦
        let ends : Ends w (goes_on v) =
          subst (Ends w) e (iterate-Ends setup (turns count) count w) in
        let (over, kept) = loop-Ends fuel (suc count) v w' (ground (arith, e, h)) in
        (over, λ s. kept (ap is_settled (ends.kept s) ∙ s) ∙ ends.kept s)
  ]

  -- With a budget of steps, the loop returns after one iteration more than the budget at the latest,
  -- and then the run's row, where there is one, has a status that is final; or else, in an iteration
  -- that the budget allows, the call of an executor never comes back, or a wait that has no limit, as a
  -- wait for a person may be, never ends. Nothing else keeps the loop from returning.
  pub run_deterministic_loop-returns :
      (w : World)
      → 0 < setup.max_steps
      → ((w' : World) × (run_deterministic_loop setup turns (suc setup.max_steps) w ≡ some w')
          × (is_settled w'.run ≡ true))
        ⊎ ((i : ℕ) × (i < setup.max_steps) × (comes_back (turns i) ≡ false))
  unfolding run_deterministic_loop
  run_deterministic_loop-returns w p =
      elim (loop-returns (suc setup.max_steps) 0 (mark_running w) p (ground arith) (ground arith)) [
        | inl (w', e) ↦ inl (w', e, (loop-Ends (suc setup.max_steps) 0 (mark_running w) w' e).0)
        | inr stalls ↦ inr stalls
      ]

  -- A run that is over stays as it is: when the loop starts with a run that is over, or is at any
  -- iteration in which another task has cancelled it, the row is the same when the loop returns,
  -- its status, stop reason, final state and end included.
  pub loop-settled :
      (fuel count : ℕ) (w w' : World)
      → is_settled w.run ≡ true
      → loop setup turns fuel count w ≡ some w'
      → w'.run ≡ w.run
  loop-settled fuel count w w' s h = (loop-Ends fuel count w w' h).1 s
